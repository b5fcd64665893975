-- ===== src/WalletAgent/Laws.antt =====
-- What the environment of the upstream process holds, and which tools are forwarded.
use monad_hackathon.Codes.{ToolClass, read_only, simulation}
use monad_hackathon.Constants.{
  defaults, meta_tools, provisional_readonly_allowlist, upstream_env_allowlist,
}
use monad_hackathon.Js.{Slot, absent, inherited, keys, member, member-In, own}
use monad_hackathon.Prelude.{
  Bool, Bool-cases, List, Option, String, [], ap, arith, eq_iff, false, if◌then◌else◌, in-all,
  includes, inl, inr, lookup, none, refl, some, str_eq, sym, true, ◌++◌, ◌∙◌, ◌∷◌, ◌≡◌, ◌⊎◌,
}
use monad_hackathon.WalletAgent.{
  Env, allowed_by, blocked_by, build_upstream_env, classify_tool, copied, forward, npm_registry,
  or_nullish, signer_entry, signer_of,
}

-- The variables of the allowlist.
abbrev pub copied_variables : List String
copied_variables =
    "PATH" ∷ "HOME" ∷ "SHELL" ∷ "LANG" ∷ "LC_ALL" ∷ "TMPDIR" ∷ "TERM" ∷ "USER" ∷ "BUN_INSTALL" ∷ []

-- A text that is not empty.
abbrev pub not_blank : String → Option String
not_blank s = if str_eq s "" then none else some s

-- The key that the operator sets for the upstream, or else the deployer's; an empty one is none.
abbrev pub operator_key : Option String → Option String → Option String
operator_key (some key) deployer = not_blank key
operator_key none (some key) = not_blank key
operator_key none none = none

-- The parent's registry, or else the public one.
abbrev pub registry_of : Option String → String
registry_of none = "https://registry.npmjs.org/"
registry_of (some registry) = registry

-- The variable's value in the child environment.
abbrev pub expected_value : String → Env → Option String
expected_value k parent_env =
    if includes copied_variables k
    then lookup k parent_env
    else if str_eq "npm_config_registry" k
    then some (registry_of (lookup "npm_config_registry" parent_env))
    else if str_eq "WALLET_PRIVATE_KEY" k
    then operator_key (lookup "COMPASS_UPSTREAM_SIGNER_KEY" parent_env)
        (lookup "MONAD_DEPLOYER_PRIVATE_KEY" parent_env)
    else none

registry_lem :
    (parent_env : Env)
    → npm_registry parent_env ≡ registry_of (lookup "npm_config_registry" parent_env)
unfolding npm_registry
registry_lem parent_env =
    elim (lookup "npm_config_registry" parent_env)
      as (λ o.
        (elim o [ none ↦ defaults.npm_registry | some registry ↦ registry ]) ≡ registry_of o) [
          | none ↦ refl
          | some registry ↦ refl
        ]

signer_lem :
    (parent_env : Env)
    → signer_of parent_env
      ≡ operator_key
          (lookup "COMPASS_UPSTREAM_SIGNER_KEY" parent_env)
          (lookup "MONAD_DEPLOYER_PRIVATE_KEY" parent_env)
unfolding signer_of
signer_lem parent_env =
    go (lookup "COMPASS_UPSTREAM_SIGNER_KEY" parent_env)
      (lookup "MONAD_DEPLOYER_PRIVATE_KEY" parent_env)
  where
    go :
        (a b : Option String)
        → (elim (or_nullish a b) [
          | none ↦ none
          | some signer ↦ if str_eq signer "" then none else some signer
        ])
          ≡ operator_key a b
    go none none = refl
    go none (some key) = refl
    go (some key) b = refl

lookup-copied :
    (k : String) (keys : List String) (parent_env rest : Env)
    → lookup k (copied keys parent_env ++ rest) ≡ (
        if includes keys k
        then elim (lookup k parent_env) [ none ↦ lookup k rest | some v ↦ some v ]
        else lookup k rest)
unfolding copied
lookup-copied k [] parent_env rest = refl
lookup-copied k (j ∷ keys) parent_env rest =
    ground (arith, lookup-copied k keys parent_env rest, eq_iff j k)

-- A name that is not on the list is no key of the list.
not_listed :
    (name k : String)
    → includes upstream_env_allowlist name ≡ false
    → includes upstream_env_allowlist k ≡ true
    → str_eq name k ≡ false
not_listed name k h i = elim (Bool-cases (str_eq name k)) [
  | inr other ↦ other
  | inl same ↦
      let e : name ≡ k = (eq_iff name k).0 same in
      cc (sym h ∙ ap (includes upstream_env_allowlist) e ∙ i)
]

lookup-added :
    (k : String) (parent_env : Env)
    → lookup k
        (("npm_config_registry", npm_registry parent_env) ∷ signer_entry (signer_of parent_env))
      ≡ (if str_eq "npm_config_registry" k
          then some (npm_registry parent_env)
          else if str_eq "WALLET_PRIVATE_KEY" k
          then signer_of parent_env
          else none)
unfolding signer_entry
lookup-added k parent_env = go (signer_of parent_env)
  where
    go :
        (o : Option String)
        → lookup k (("npm_config_registry", npm_registry parent_env) ∷ signer_entry o) ≡ (
            if str_eq "npm_config_registry" k
            then some (npm_registry parent_env)
            else if str_eq "WALLET_PRIVATE_KEY" k
            then o
            else none)
    go none = ground arith
    go (some s) = ground arith

-- A lookup in the copied part and then in the added part.
copied_or_added :
    (listed npm key : Bool) (value added signer : Option String) (registry : String)
    → added ≡ (if npm then some registry else if key then signer else none)
    → (listed ≡ true → (npm ≡ false) × (key ≡ false))
    → (if listed then elim value [ none ↦ added | some v ↦ some v ] else added)
      ≡ (if listed then value else if npm then some registry else if key then signer else none)
copied_or_added false npm key value added signer registry e h = e
copied_or_added true npm key (some v) added signer registry e h = refl
copied_or_added true npm key none added signer registry e h = let (p, q) = h refl in rw (p, q) at e

-- The upstream's environment gives a variable of the allowlist the value that the parent gives it, if
-- any; npm_config_registry the parent's value, or else the public registry; WALLET_PRIVATE_KEY the
-- parent's COMPASS_UPSTREAM_SIGNER_KEY, or where that is not set its MONAD_DEPLOYER_PRIVATE_KEY, unless
-- it is the empty text; and no other variable a value.
pub lookup-build_upstream_env :
    (k : String) (parent_env : Env)
    → lookup k (build_upstream_env parent_env) ≡ expected_value k parent_env
unfolding build_upstream_env
lookup-build_upstream_env k parent_env =
    rw (sym (registry_lem parent_env), sym (signer_lem parent_env))
      (lookup-copied k upstream_env_allowlist parent_env
          (("npm_config_registry", npm_registry parent_env) ∷ signer_entry (signer_of parent_env))
        ∙ copied_or_added (includes upstream_env_allowlist k) (str_eq "npm_config_registry" k)
            (str_eq "WALLET_PRIVATE_KEY" k) (lookup k parent_env) _ (signer_of parent_env)
            (npm_registry parent_env) (lookup-added k parent_env)
            (λ listed. (
              not_listed "npm_config_registry" k refl listed,
              not_listed "WALLET_PRIVATE_KEY" k refl listed,
            )))

allowed_by-forward :
    (slot other : Slot ToolClass) (class : ToolClass)
    → allowed_by slot (blocked_by other) ≡ forward (some class)
    → slot ≡ own class
unfolding allowed_by blocked_by
allowed_by-forward (own c) other class h = ground arith
allowed_by-forward inherited other class h = cc
allowed_by-forward absent (own c) class h = cc
allowed_by-forward absent inherited class h = cc
allowed_by-forward absent absent class h = cc

is_reading : String × ToolClass → Bool
is_reading (n, read_only) = true
is_reading (n, simulation) = true
is_reading (n, _) = false

is_reading_lem :
    (n : String) (class : ToolClass)
    → is_reading (n, class) ≡ true
    → (class ≡ read_only) ⊎ (class ≡ simulation)
unfolding is_reading
is_reading_lem n class h = ground arith

-- A tool that the provisional allowlist forwards with a class is of a reading class.
pub classify_tool-forward :
    (name : String) (class : ToolClass)
    → classify_tool name ≡ forward (some class)
    → (class ≡ read_only) ⊎ (class ≡ simulation)
unfolding classify_tool is_reading
classify_tool-forward name class h = elim (Bool-cases (includes meta_tools name)) [
  | inl meta_tool ↦ cc (simp meta_tool at h)
  | inr other ↦
      let e : member name provisional_readonly_allowlist ≡ own class =
        allowed_by-forward _ _ class (simp other at h) in
      is_reading_lem name class (
        in-all is_reading (name, class) provisional_readonly_allowlist refl
          (member-In name provisional_readonly_allowlist class e))
]
