-- ===== src/ToolSemantics/Resolver/Accepted.antt =====
-- When the resolver shows a tool.
use monad_hackathon.Codes.{Code, private_key_management_blocked}
use monad_hackathon.Js.{Slot, absent, inherited, own}
use monad_hackathon.Prelude.{
  Bool-cases, In, List, Option, String, [], ap, arith, eq_iff, false, includes, inl, inr, none,
  refl, some, some_inj, str_eq, sym, true, ◌||◌, ◌↔◌, ◌∙◌, ◌∷◌, ◌≡◌, ◌≢◌,
}
use monad_hackathon.ToolSemantics.Patterns.{any_pattern, key_material_patterns}
use monad_hackathon.ToolSemantics.Registry.{
  ToolSemantics, Unsupported, get_tool_semantics, get_unsupported_capability,
}
use monad_hackathon.ToolSemantics.Resolver.{
  Fixture, ToolDescriptor, Visible, blocked, classify_blocked_tool, deny, descriptor,
  descriptor_text, hash_matches, input_schema_hash_of, is_key_material, key_of, name_or_empty,
  private_key_tool_names, resolve_capability, resolve_registered, resolve_supported,
  resolve_tool_descriptor, text_or, text_or_blank, tool_name_of, visible,
}

-- What a shown tool has passed: its name is registered and neither unsupported nor key material, and
-- the hash of its schema is the reviewed one.
pub record IsAccepted (f : Fixture) (v : Visible) : Type 0 where
  pub name : v.tool_name ≡ tool_name_of f
  pub supported : get_unsupported_capability (key_of (tool_name_of f)) ≡ absent
  pub harmless : is_key_material f ≡ false
  pub registered : get_tool_semantics (key_of (tool_name_of f)) ≡ own v.semantics
  pub hash : v.matched_input_schema_hash ≡ input_schema_hash_of f
  pub reviewed :
      (h : String) × (input_schema_hash_of f ≡ some h)
      × (h ≢ "")
      × (h ≡ v.semantics.input_schema_hash)

hash_matches_iff :
    (o : Option String) (expected : String)
    → (hash_matches o expected ≡ true) ↔ ((h : String) × (o ≡ some h) × (h ≢ "") × (h ≡ expected))
unfolding hash_matches
hash_matches_iff none expected = (λ h. cc h, λ (h, e, _, _). cc e)
hash_matches_iff (some h) expected = elim (Bool-cases (str_eq h "")) [
  | inl bare ↦ (
    λ e. cc (rw bare at e),
    λ (k, same, filled, _). absurd (filled (sym (some_inj same) ∙ (eq_iff h "").0 bare)),
  )
  | inr filled ↦ (
    λ e. (
      h,
      refl,
      λ bare. cc (sym filled ∙ (eq_iff h "").1 bare),
      (eq_iff h expected).0 (rw filled at e),
    ),
    λ (k, same, _, e). rw filled ((eq_iff h expected).1 (some_inj same ∙ e)),
  )
]

resolve_registered_visible :
    (name hash : Option String) (reason : Option Code) (slot : Slot ToolSemantics) (v : Visible)
    → resolve_registered name reason hash slot ≡ visible v
    → (slot ≡ own v.semantics)
      × (v.tool_name ≡ name)
      × (v.matched_input_schema_hash ≡ hash)
      × (hash_matches hash v.semantics.input_schema_hash ≡ true)
unfolding resolve_registered
resolve_registered_visible name hash reason (own s) v h = ground arith
resolve_registered_visible name hash reason inherited v h = cc
resolve_registered_visible name hash (some c) absent v h = cc
resolve_registered_visible name hash none absent v h = cc

resolve_supported_visible :
    (f : Fixture) (name : Option String) (v : Visible)
    → resolve_supported f name (classify_blocked_tool f) ≡ visible v
    → (is_key_material f ≡ false)
      × (resolve_registered name
            (classify_blocked_tool f)
            (input_schema_hash_of f)
            (get_tool_semantics (key_of name))
          ≡ visible v)
unfolding resolve_supported classify_blocked_tool
resolve_supported_visible f name v h = ground arith

resolve_supported_pass :
    (f : Fixture) (name : Option String)
    → is_key_material f ≡ false
    → resolve_supported f name (classify_blocked_tool f)
      ≡ resolve_registered name
          (classify_blocked_tool f)
          (input_schema_hash_of f)
          (get_tool_semantics (key_of name))
unfolding resolve_supported classify_blocked_tool
resolve_supported_pass f name h = ground arith

resolve_capability_visible :
    (f : Fixture) (name : Option String) (slot : Slot Unsupported) (v : Visible)
    → resolve_capability f name slot ≡ visible v
    → (slot ≡ absent) × (resolve_supported f name (classify_blocked_tool f) ≡ visible v)
unfolding resolve_capability
resolve_capability_visible f name (own u) v h = cc
resolve_capability_visible f name inherited v h = cc
resolve_capability_visible f name absent v h = (refl, h)

visible_sound : (f : Fixture) (v : Visible) → resolve_tool_descriptor f ≡ visible v → IsAccepted f v
unfolding resolve_tool_descriptor
visible_sound f v h =
    let (supported, h1) = resolve_capability_visible f _ _ v h in
    let (harmless, h2) = resolve_supported_visible f _ v h1 in
    let (registered, name, hash, reviewed) = resolve_registered_visible _ _ _ _ v h2 in
    record {
      name = name;
      supported = supported;
      harmless = harmless;
      registered = registered;
      hash = hash;
      reviewed = (hash_matches_iff _ _).0 reviewed;
    }

visible_complete :
    (f : Fixture) (v : Visible) → IsAccepted f v → resolve_tool_descriptor f ≡ visible v
unfolding resolve_tool_descriptor resolve_capability resolve_registered
visible_complete f v a =
    rw
      (
        a.supported,
        resolve_supported_pass f _ a.harmless,
        a.registered,
        (hash_matches_iff _ _).1 a.reviewed,
      )
      (ground (arith, a.name, a.hash))

-- The resolver shows a tool exactly when its name is registered, is not among the unsupported
-- capabilities nor an inherited property name, nothing in its name or in the names of its schema's
-- properties looks like key material, and the hash that comes with it is the reviewed one; what it
-- shows is then the registry's entry for the name.
pub visible_iff :
    (f : Fixture) (v : Visible) → (resolve_tool_descriptor f ≡ visible v) ↔ IsAccepted f v
visible_iff f v = (visible_sound f v, visible_complete f v)

resolve_supported_key_material :
    (f : Fixture) (name : Option String)
    → is_key_material f ≡ true
    → resolve_supported f name (classify_blocked_tool f)
      ≡ deny name blocked private_key_management_blocked none none
unfolding resolve_supported classify_blocked_tool
resolve_supported_key_material f name h = ground arith

-- The five names of private-key tools.
abbrev pub private_key_names : List String
private_key_names =
    "import_private_key" ∷ "create_encrypted_keystore" ∷ "unlock_keystore"
    ∷ "import_encrypted_private_key" ∷ "remove_private_key" ∷ []

IsSupported : String → Type 0
IsSupported k = get_unsupported_capability k ≡ absent

private_key_name-IsSupported : (k : String) → In k private_key_names → IsSupported k
unfolding IsSupported get_unsupported_capability
private_key_name-IsSupported k (inl e) = rw e refl
private_key_name-IsSupported k (inr (inl e)) = rw e refl
private_key_name-IsSupported k (inr (inr (inl e))) = rw e refl
private_key_name-IsSupported k (inr (inr (inr (inl e)))) = rw e refl
private_key_name-IsSupported k (inr (inr (inr (inr (inl e))))) = rw e refl
private_key_name-IsSupported k (inr (inr (inr (inr (inr e))))) = absurd e

private_key_name-filled : (k : String) → In k private_key_names → str_eq k "" ≡ false
private_key_name-filled k (inl e) = rw e refl
private_key_name-filled k (inr (inl e)) = rw e refl
private_key_name-filled k (inr (inr (inl e))) = rw e refl
private_key_name-filled k (inr (inr (inr (inl e)))) = rw e refl
private_key_name-filled k (inr (inr (inr (inr (inl e))))) = rw e refl
private_key_name-filled k (inr (inr (inr (inr (inr e))))) = absurd e

private_key_name-listed :
    (k : String) → In k private_key_names → includes private_key_tool_names k ≡ true
private_key_name-listed k (inl e) = rw e refl
private_key_name-listed k (inr (inl e)) = rw e refl
private_key_name-listed k (inr (inr (inl e))) = rw e refl
private_key_name-listed k (inr (inr (inr (inl e)))) = rw e refl
private_key_name-listed k (inr (inr (inr (inr (inl e))))) = rw e refl
private_key_name-listed k (inr (inr (inr (inr (inr e))))) = absurd e

private_key_name-tool_name_of :
    (d : ToolDescriptor) (k : String)
    → d.name ≡ some k
    → In k private_key_names
    → text_or d.name d.tool_name ≡ some k
unfolding text_or
private_key_name-tool_name_of d k e i =
    ap (λ o. text_or o d.tool_name) e ∙ rw (private_key_name-filled k i) refl

named_key_material :
    (d : ToolDescriptor) (k : String)
    → d.name ≡ some k
    → In k private_key_names
    → is_key_material (descriptor d) ≡ true
unfolding is_key_material name_or_empty text_or_blank
named_key_material d k e i =
    let same : name_or_empty (descriptor d) ≡ k =
      ap text_or_blank (private_key_name-tool_name_of d k e i) in
    ap
      (λ (n : String).
        includes private_key_tool_names n
        || any_pattern (descriptor_text (descriptor d)) key_material_patterns)
      same
    ∙ rw (private_key_name-listed k i) refl

-- A descriptor with the name import_private_key, create_encrypted_keystore, unlock_keystore,
-- import_encrypted_private_key or remove_private_key, whatever schema, hash and other properties come
-- with it, is blocked with the code PRIVATE_KEY_MANAGEMENT_BLOCKED.
pub private_key_name-blocked :
    (d : ToolDescriptor) (k : String)
    → d.name ≡ some k
    → In k private_key_names
    → resolve_tool_descriptor (descriptor d)
      ≡ deny (some k) blocked private_key_management_blocked none none
unfolding resolve_tool_descriptor resolve_capability IsSupported tool_name_of
private_key_name-blocked d k e i =
    let f : Fixture = descriptor d in
    ap (λ (n : Option String). resolve_capability f n (get_unsupported_capability (key_of n)))
      (private_key_name-tool_name_of d k e i)
    ∙ ap (λ (slot : Slot Unsupported). resolve_capability f (some k) slot)
        (private_key_name-IsSupported k i)
    ∙ resolve_supported_key_material f (some k) (named_key_material d k e i)
