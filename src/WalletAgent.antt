-- ===== src/WalletAgent.antt =====
-- back/services/adapters/walletAgent.ts, with `parseCommand` in the child Command. An environment is a
-- list of variables with their values.
pub mod Laws
pub mod Command
mod Tests
use monad_hackathon.Codes.{ToolClass, unknown}
use monad_hackathon.Constants.{
  always_blocked_tools, defaults, meta_tools, provisional_readonly_allowlist,
  upstream_env_allowlist,
}
use monad_hackathon.Js.{Slot, absent, inherited, keys, member, own}
use monad_hackathon.Prelude.{
  List, Option, String, [], if◌then◌else◌, includes, lookup, none, some, str_eq, ◌++◌, ◌∷◌,
}

abbrev pub Env : Type 0
Env = List (String × String)

-- `a ?? b`
abbrev pub or_nullish : Option String → Option String → Option String
or_nullish none b = b
or_nullish (some a) b = some a

-- The loop over the allowlist.
unfoldable pub copied : List String → Env → Env
copied [] parent_env = []
copied (key ∷ keys) parent_env =
    let rest = copied keys parent_env in
    elim (lookup key parent_env) [ none ↦ rest | some value ↦ (key, value) ∷ rest ]

unfoldable pub npm_registry : Env → String
npm_registry parent_env = elim (lookup "npm_config_registry" parent_env) [
  | none ↦ defaults.npm_registry
  | some registry ↦ registry
]

-- The value of the signing key, where one is set.
unfoldable pub signer_of : Env → Option String
signer_of parent_env =
    elim (or_nullish (lookup "COMPASS_UPSTREAM_SIGNER_KEY" parent_env)
      (lookup "MONAD_DEPLOYER_PRIVATE_KEY" parent_env)) [
        | none ↦ none
        | some signer ↦ if str_eq signer "" then none else some signer
      ]

signer_entry : Option String → Env
signer_entry none = []
signer_entry (some signer) = ("WALLET_PRIVATE_KEY", signer) ∷ []

unfoldable pub build_upstream_env : Env → Env
unfolding copied npm_registry signer_of signer_entry
build_upstream_env parent_env =
    copied upstream_env_allowlist parent_env
    ++ ("npm_config_registry", npm_registry parent_env) ∷ signer_entry (signer_of parent_env)

pub data BlockReason : Type 0 where
  blocked_class unmapped : BlockReason

-- The class of a table's entry is `none` where the entry is an inherited property.
pub data Classification : Type 0 where
  meta : Classification
  forward : Option ToolClass → Classification
  block : Option ToolClass → BlockReason → Classification

blocked_by : Slot ToolClass → Classification
blocked_by (own class) = block (some class) blocked_class
blocked_by inherited = block none blocked_class
blocked_by absent = block (some unknown) unmapped

allowed_by : Slot ToolClass → Classification → Classification
allowed_by (own class) otherwise = forward (some class)
allowed_by inherited otherwise = forward none
allowed_by absent otherwise = otherwise

unfoldable pub classify_tool : String → Classification
unfolding blocked_by allowed_by member
classify_tool tool_name =
    if includes meta_tools tool_name
    then meta
    else allowed_by (member tool_name provisional_readonly_allowlist)
        (blocked_by (member tool_name always_blocked_tools))
