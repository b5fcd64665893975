-- ===== src/Proxy/Bridge/Exposure.antt =====
-- What tools/list shows to the host.
use monad_hackathon.Prelude.{
  Bool, In, List, String, [], ap, arith, in-filter, in-filter_of, in-map, in-map_of, inl, inr, none,
  refl, some, sym, true, ◌↔◌, ◌∙◌, ◌∷◌, ◌≡◌, ◌⊎◌,
}
use monad_hackathon.Proxy.Bridge.{
  HostVisibleTool, UpstreamToolDescriptor, bare_descriptor, descriptor_by_name, exposed,
  filter_host_exposed_tools, fixture, shown, with_input_schema_hash,
}
use monad_hackathon.ToolSemantics.Registry.{ToolSemantics, allow}
use monad_hackathon.ToolSemantics.Resolver.{
  Resolution, Visible, denied, filter_visible_tools, is_visible, key_of, resolve_tool_descriptor,
  visible,
}
use monad_hackathon.ToolSemantics.Resolver.Accepted.{IsAccepted, visible_iff}

exposed-In :
    (hashed : List UpstreamToolDescriptor) (rs : List Resolution) (t : HostVisibleTool)
    → In t (exposed hashed rs)
    → (v : Visible) × In (visible v) rs
      × (t.semantics ≡ v.semantics)
      × (t.descriptor ≡ elim (descriptor_by_name v.tool_name hashed) [
        | some d ↦ d
        | none ↦ bare_descriptor (key_of v.tool_name)
      ])
unfolding exposed
exposed-In hashed [] t i = absurd i
exposed-In hashed (denied d ∷ rs) t i =
    let (v, j, e, f) = exposed-In hashed rs t i in (v, inr j, e, f)
exposed-In hashed (visible v ∷ rs) t (inl e) =
    (v, inl refl, ap (λ x. x.semantics) e, ap (λ x. x.descriptor) e)
exposed-In hashed (visible v ∷ rs) t (inr i) =
    let (w, j, e, f) = exposed-In hashed rs t i in (w, inr j, e, f)

exposed-In_of :
    (hashed : List UpstreamToolDescriptor) (rs : List Resolution) (v : Visible)
    → In (visible v) rs
    → (t : HostVisibleTool) × In t (exposed hashed rs) × (t.semantics ≡ v.semantics)
unfolding exposed
exposed-In_of hashed [] v i = absurd i
exposed-In_of hashed (denied d ∷ rs) v (inl e) = cc
exposed-In_of hashed (denied d ∷ rs) v (inr i) = exposed-In_of hashed rs v i
exposed-In_of hashed (visible w ∷ rs) v (inl e) =
    let same : v ≡ w = cc in (_, inl refl, ap (λ x. x.semantics) (sym same))
exposed-In_of hashed (visible w ∷ rs) v (inr i) =
    let (t, j, e) = exposed-In_of hashed rs v i in (t, inr j, e)

shown-visible :
    (b : Bool) (v : Visible)
    → shown b (visible v) ≡ true
    → (b ≡ true) ⊎ (v.semantics.default_decision ≡ allow)
unfolding shown
shown-visible b v h = ground arith

shown-visible_of :
    (b : Bool) (v : Visible)
    → ((b ≡ true) ⊎ (v.semantics.default_decision ≡ allow))
    → shown b (visible v) ≡ true
unfolding shown
shown-visible_of b v h = ground arith

-- The descriptor and the resolution behind a shown tool.
pub record IsSource (sha256 : String → String) (ds : List UpstreamToolDescriptor)
    (expose_all : Bool) (s : ToolSemantics) : Type 0 where
  pub descriptor : UpstreamToolDescriptor
  pub listed : In descriptor ds
  pub resolution : Visible
  pub accepted : IsAccepted (fixture (with_input_schema_hash sha256 descriptor)) resolution
  pub semantics : s ≡ resolution.semantics
  pub allowed : (expose_all ≡ true) ⊎ (s.default_decision ≡ allow)

module _ (sha256 : String → String) (ds : List UpstreamToolDescriptor) (expose_all : Bool) where
  exposed-IsSource :
      (t : HostVisibleTool)
      → In t (filter_host_exposed_tools sha256 ds expose_all)
      → IsSource sha256 ds expose_all t.semantics
  unfolding filter_host_exposed_tools filter_visible_tools
  exposed-IsSource t i =
      let (v, j, e, _) = exposed-In _ _ t i in
      let (k, show) = in-filter _ _ _ j in
      let (m, _) = in-filter is_visible _ _ k in
      let (f, n, r) = in-map resolve_tool_descriptor _ _ m in
      let (h, o, q) = in-map fixture f _ n in
      let (d, listed, w) = in-map (with_input_schema_hash sha256) h ds o in
      record {
        descriptor = d;
        listed = listed;
        resolution = v;
        accepted = (visible_iff _ v).0 (
            sym
              (r ∙ ap resolve_tool_descriptor q ∙ ap (λ x. resolve_tool_descriptor (fixture x)) w));
        semantics = e;
        allowed = rw e (shown-visible expose_all v show);
      }

  exposed_of_source :
      (s : ToolSemantics)
      → IsSource sha256 ds expose_all s
      → (t : HostVisibleTool) × In t (filter_host_exposed_tools sha256 ds expose_all)
        × (t.semantics ≡ s)
  unfolding filter_host_exposed_tools filter_visible_tools
  exposed_of_source s src =
      let v = src.resolution in
      let r : resolve_tool_descriptor (fixture (with_input_schema_hash sha256 src.descriptor))
          ≡ visible v =
        (visible_iff _ v).1 src.accepted in
      let i =
        in-map_of resolve_tool_descriptor _ _
          (in-map_of fixture _ _ (in-map_of (with_input_schema_hash sha256) _ ds src.listed)) in
      let j = in-filter_of is_visible _ _ i (ap is_visible r) in
      let k = in-filter_of (shown expose_all) _ _ j (
        ap (shown expose_all) r
        ∙ shown-visible_of expose_all v (rw src.semantics at src.allowed)) in
      let (t, m, e) = exposed-In_of _ _ v (rw r at k) in (t, m, e ∙ sym src.semantics)

-- tools/list shows the registry's entry s exactly when some listed upstream descriptor, with the
-- hash of its schema filled in, is accepted by the resolver with the entry s, and s allows by
-- default or everything visible is to be shown.
pub exposed_iff :
    (sha256 : String → String) (ds : List UpstreamToolDescriptor) (expose_all : Bool)
    (s : ToolSemantics)
    → ((t : HostVisibleTool) × In t (filter_host_exposed_tools sha256 ds expose_all)
        × (t.semantics ≡ s))
      ↔ IsSource sha256 ds expose_all s
exposed_iff sha256 ds expose_all s = (
  λ (t, i, e). rw e at (exposed-IsSource sha256 ds expose_all t i),
  exposed_of_source sha256 ds expose_all s,
)
