-- ===== src/Proxy/Server/Shown.antt =====
-- How the calls that can be made relate to what tools/list shows.
use monad_hackathon.Js.{own}
use monad_hackathon.Prelude.{
  Bool, Bool-cases, In, Option-cases, String, ap, false, if◌then◌else◌, in-map_of, inl, inr, refl,
  str_eq, sym, true, ◌∙◌, ◌≡◌,
}
use monad_hackathon.Proxy.Bridge.{UpstreamToolDescriptor, fixture, with_input_schema_hash}
use monad_hackathon.Proxy.Bridge.Exposure.{exposed_iff}
use monad_hackathon.Proxy.Interceptor.Safety.{IsReadingCall}
use monad_hackathon.Proxy.ToolMirror.{ExposedTool, ToolMirror, as_exposed, exposed_tools}
use monad_hackathon.ToolSemantics.Registry.{ToolSemantics, get_tool_semantics}
use monad_hackathon.ToolSemantics.Registry.Facts.{registered_name}
use monad_hackathon.ToolSemantics.Resolver.{key_of, text_or, tool_name_of}

named_key :
    (d : UpstreamToolDescriptor) (s : ToolSemantics)
    → get_tool_semantics (key_of (tool_name_of (fixture d))) ≡ own s
    → d.name ≡ s.exposed_name
unfolding tool_name_of text_or get_tool_semantics
named_key d s h = elim (Bool-cases (str_eq d.name "")) [
  | inl empty ↦ cc (simp empty at h)
  | inr filled ↦ (registered_name d.name s (simp filled at h)).1
]

named_either :
    (b : Bool) (c d : UpstreamToolDescriptor) → c.name ≡ d.name → (if b then c else d).name ≡ c.name
named_either true c d e = refl
named_either false c d e = sym e

module _ (sha256 : String → String) where
  with_input_schema_hash-name :
      (d : UpstreamToolDescriptor) → (with_input_schema_hash sha256 d).name ≡ d.name
  unfolding with_input_schema_hash
  with_input_schema_hash-name d = elim (Option-cases d.input_schema) [
    | inl e ↦ rw (e, with_input_schema_hash) refl
    | inr (schema, e) ↦ rw (e, with_input_schema_hash) (named_either _ d _ refl)
  ]

  exposed_name :
      (name : String) (m : ToolMirror) (r : IsReadingCall sha256 m.upstream name)
      → r.semantics.exposed_name ≡ name
  exposed_name name m r =
      let d = with_input_schema_hash sha256 r.callable.descriptor in
      sym (named_key d r.semantics (rw r.callable.semantics at r.callable.accepted.registered))
      ∙ with_input_schema_hash-name r.callable.descriptor
      ∙ r.callable.named

-- Every reading call of the connected upstream is of a tool that tools/list shows by the same name,
-- with or without a guarded pipeline.
pub reading_call-exposed_tools :
    (sha256 : String → String) (name : String) (m : ToolMirror)
    → IsReadingCall sha256 m.upstream name
    → (t : ExposedTool) × In t (exposed_tools sha256 m) × (t.name ≡ name)
unfolding exposed_tools as_exposed
reading_call-exposed_tools sha256 name m r =
    let (t, i, e) =
      (exposed_iff sha256 m.upstream.tool_descriptors m.guarded_active r.semantics).1 (record {
        descriptor = r.callable.descriptor;
        listed = r.callable.listed;
        resolution = r.callable.resolution;
        accepted = r.callable.accepted;
        semantics = sym r.callable.semantics;
        allowed = inr r.allowed;
      }) in
    (
      as_exposed t,
      in-map_of as_exposed t _ i,
      ap (λ (s : ToolSemantics). s.exposed_name) e ∙ exposed_name sha256 name m r,
    )
