-- ===== src/Proxy/Bridge.antt =====
-- mcp/proxy/toolSemanticsBridge.ts. SHA-256 is the parameter `sha256`, from a text to its hex digest.
pub mod Exposure
use Prim.Native.String.{◌++◌ as ◌+++◌}
use monad_hackathon.Codes.{schema_drift}
use monad_hackathon.Js.{Slot, Value, own, truthy}
use monad_hackathon.Js.Json.{canonical_json}
use monad_hackathon.Prelude.{
  Bool, List, Option, String, [], false, filter, if◌then◌else◌, map, none, not, some, str_eq, true,
  ◌||◌, ◌∷◌,
}
use monad_hackathon.ToolSemantics.Registry.{ToolSemantics, allow, block, get_tool_semantics}
use monad_hackathon.ToolSemantics.Resolver.{
  Fixture, Resolution, denied, descriptor, disabled, filter_visible_tools, key_of, named,
  resolve_tool_descriptor, text_or, visible,
}

pub record UpstreamToolDescriptor : Type 0 where
  pub name : String
  pub description : Option String
  pub input_schema : Option Value
  pub input_schema_hash : Option String
  pub camel_input_schema_hash : Option String

-- The descriptor as the resolver of the package reads it.
abbrev pub fixture : UpstreamToolDescriptor → Fixture
fixture d = descriptor (record {
  name = some d.name;
  tool_name = none;
  description = d.description;
  input_schema = d.input_schema;
  input_schema_hash = d.input_schema_hash;
  camel_input_schema_hash = d.camel_input_schema_hash;
})

-- `{ name }`
abbrev pub bare_descriptor : String → UpstreamToolDescriptor
bare_descriptor name = record {
  name = name;
  description = none;
  input_schema = none;
  input_schema_hash = none;
  camel_input_schema_hash = none;
}

has_hash : UpstreamToolDescriptor → Bool
unfolding text_or
has_hash d = elim (text_or d.input_schema_hash d.camel_input_schema_hash) [
  | none ↦ false
  | some h ↦ not (str_eq h "")
]

pub record HostVisibleTool : Type 0 where
  pub descriptor : UpstreamToolDescriptor
  pub semantics : ToolSemantics

-- `new Map(entries).get(name)`: the last entry of a name wins.
unfoldable pub descriptor_by_name :
    Option String → List UpstreamToolDescriptor → Option UpstreamToolDescriptor
descriptor_by_name none ds = none
descriptor_by_name (some name) [] = none
descriptor_by_name (some name) (d ∷ ds) = elim (descriptor_by_name (some name) ds) [
  | some later ↦ some later
  | none ↦ if str_eq d.name name then some d else none
]

abbrev pub default_allows : ToolSemantics → Bool
default_allows s = elim s.default_decision [ allow ↦ true | block ↦ false ]

-- `.filter(visible).filter((r) => exposeAllVisible || default_decision === "allow")`
unfoldable pub shown : Bool → Resolution → Bool
shown expose_all (denied d) = false
shown expose_all (visible v) = expose_all || default_allows v.semantics

-- A shown resolution with the descriptor of its name.
exposed : List UpstreamToolDescriptor → List Resolution → List HostVisibleTool
unfolding descriptor_by_name
exposed hashed [] = []
exposed hashed (denied d ∷ rs) = exposed hashed rs
exposed hashed (visible v ∷ rs) =
    record {
      descriptor = elim (descriptor_by_name v.tool_name hashed) [
        | some d ↦ d
        | none ↦ bare_descriptor (key_of v.tool_name)
      ];
      semantics = v.semantics;
    }
    ∷ exposed hashed rs

module _ (sha256 : String → String) where
  unfoldable pub input_schema_hash : Value → String
  unfolding canonical_json
  input_schema_hash schema = "sha256:" +++ sha256 (canonical_json schema)

  unfoldable pub with_input_schema_hash : UpstreamToolDescriptor → UpstreamToolDescriptor
  unfolding has_hash input_schema_hash truthy
  with_input_schema_hash d = elim d.input_schema [
    | none ↦ d
    | some schema ↦
        if has_hash d || not (truthy schema)
        then d
        else record d { input_schema_hash = some (input_schema_hash schema) }
  ]

  unfoldable pub filter_host_exposed_tools :
      List UpstreamToolDescriptor → Bool → List HostVisibleTool
  unfolding exposed shown
  filter_host_exposed_tools descriptors expose_all =
      let hashed = map with_input_schema_hash descriptors in
      exposed hashed (filter (shown expose_all) (filter_visible_tools (map fixture hashed)))

  -- A registered tool is let through to the check of the connection while no tools/list is cached.
  while_disconnected : String → Bool → Slot ToolSemantics → Resolution → Resolution
  while_disconnected tool_name false (own s) (denied d) = elim d.status [
    | disabled ↦ elim d.safe_reason_code [
      | schema_drift ↦
          visible
            (record { tool_name = some tool_name; semantics = s; matched_input_schema_hash = none })
      | _ ↦ denied d
    ]
    | _ ↦ denied d
  ]
  while_disconnected tool_name connected slot r = r

  unfoldable pub resolve_tool_for_call : String → Option UpstreamToolDescriptor → Bool → Resolution
  unfolding while_disconnected with_input_schema_hash named
  resolve_tool_for_call tool_name (some d) connected =
      resolve_tool_descriptor (fixture (with_input_schema_hash d))
  resolve_tool_for_call tool_name none connected =
      while_disconnected tool_name connected (get_tool_semantics tool_name)
        (resolve_tool_descriptor (named tool_name none))
