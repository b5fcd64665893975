-- ===== src/ToolSemantics/Registry/Facts.antt =====
-- Facts about every entry of the registry, by evaluation.
use monad_hackathon.Codes.{ToolClass, read_only, simulation}
use monad_hackathon.Js.{member-In, own}
use monad_hackathon.Prelude.{
  Bool, In, String, all, arith, eq_iff, false, in-all, not, refl, str_eq, true, ◌&&◌, ◌≡◌, ◌≢◌, ◌⊎◌,
}
use monad_hackathon.ToolSemantics.Registry.{
  StateEffect, ToolSemantics, allow, block, get_tool_semantics, wallet_agent_registry,
}

abbrev is_reading_class : ToolClass → Bool
is_reading_class read_only = true
is_reading_class simulation = true
is_reading_class _ = false

abbrev is_effect_free : StateEffect → Bool
is_effect_free StateEffect.none = true
is_effect_free _ = false

-- An entry that allows by default reads only.
is_tame : ToolSemantics → Bool
is_tame s = elim s.default_decision [
  | block ↦ true
  | allow ↦
      is_reading_class s.tool_class && (is_effect_free s.state_effect && not s.requires_simulation)
]

is_well_named : String × ToolSemantics → Bool
is_well_named (n, s) =
    str_eq n s.tool_name && (str_eq n s.exposed_name && not (str_eq s.input_schema_hash ""))

is_checked : String × ToolSemantics → Bool
unfolding is_tame is_well_named
is_checked e = is_tame e.1 && is_well_named e

all_checked : all is_checked wallet_agent_registry ≡ true
unfolding is_checked
all_checked = refl

pub get_tool_semantics-In :
    (k : String) (s : ToolSemantics)
    → get_tool_semantics k ≡ own s
    → In (k, s) wallet_agent_registry
unfolding get_tool_semantics
get_tool_semantics-In k s h = member-In k wallet_agent_registry s h

module _ (k : String) (s : ToolSemantics) (h : get_tool_semantics k ≡ own s) where
  entry_checks : is_checked (k, s) ≡ true
  entry_checks =
      in-all is_checked (k, s) wallet_agent_registry all_checked (get_tool_semantics-In k s h)

  -- An entry that allows by default is of a reading class, has no effect on any state, and needs no
  -- simulation.
  pub registered_default_allow :
      s.default_decision ≡ allow
      → ((s.tool_class ≡ read_only) ⊎ (s.tool_class ≡ simulation))
        × (s.state_effect ≡ StateEffect.none)
        × (s.requires_simulation ≡ false)
  unfolding is_checked
  registered_default_allow d = ground (arith, entry_checks)

  -- An entry stands under its own name, and shows itself by it; its reviewed hash is not empty.
  pub registered_name : (k ≡ s.tool_name) × (k ≡ s.exposed_name) × (s.input_schema_hash ≢ "")
  unfolding is_checked
  registered_name = ground (
    arith,
    entry_checks,
    eq_iff k s.tool_name,
    eq_iff k s.exposed_name,
    eq_iff s.input_schema_hash "",
  )
