-- ===== src/Proxy/ToolMirror.antt =====
-- mcp/proxy/toolMirror.ts
use monad_hackathon.Js.{Value, end, field, obj, str}
use monad_hackathon.Prelude.{Bool, List, Option, String, length, map, none, some, ℕ}
use monad_hackathon.Proxy.Bridge.{HostVisibleTool, filter_host_exposed_tools}
use monad_hackathon.Proxy.Upstream.{UpstreamClient}

pub record ExposedTool : Type 0 where
  pub name : String
  pub description : Option String
  pub input_schema : Value

pub record ToolMirror : Type 0 where
  pub upstream : UpstreamClient
  pub guarded_active : Bool

unfoldable pub upstream_tool_count : ToolMirror → ℕ
upstream_tool_count m = length m.upstream.tool_names

unfoldable pub as_exposed : HostVisibleTool → ExposedTool
as_exposed t = record {
  name = t.semantics.exposed_name;
  description = t.descriptor.description;
  input_schema = elim t.descriptor.input_schema [
    | some schema ↦ schema
    | none ↦ obj (field "type" (str "object") end)
  ];
}

module _ (sha256 : String → String) where
  unfoldable pub exposed_tools : ToolMirror → List ExposedTool
  unfolding as_exposed
  exposed_tools m =
      map as_exposed (filter_host_exposed_tools sha256 m.upstream.tool_descriptors m.guarded_active)
