-- ===== src/ToolSemantics/Resolver/Tests.antt =====
-- Runs of the resolver, and the theorems about it at concrete tools.
use monad_hackathon.Codes.{
  private_key_management_blocked, schema_drift, unmapped_tool, unsupported_tool,
}
use monad_hackathon.Js.{end, obj}
use monad_hackathon.Prelude.{inl, inr, none, refl, some, ◌↔◌, ◌≡◌}
use monad_hackathon.ToolSemantics.Registry.{
  get_balance, get_tool_semantics, get_unsupported_capability, refs,
}
use monad_hackathon.ToolSemantics.Resolver.{
  ToolDescriptor, Visible, bare_name, blocked, classify_blocked_tool, deny, descriptor, disabled,
  hidden, is_dangerous, is_key_material, named, resolve_call_by_name, resolve_tool_descriptor,
  unsupported, visible,
}
use monad_hackathon.ToolSemantics.Resolver.Accepted.{
  IsAccepted, private_key_name-blocked, visible_iff,
}

resolver_tests :
    (resolve_call_by_name "get_balance" none
      ≡ deny (some "get_balance") disabled schema_drift none (some (refs "get_balance")))
    × (resolve_tool_descriptor (bare_name "unlock_keystore")
        ≡ deny (some "unlock_keystore") hidden unmapped_tool none none)
    × (resolve_call_by_name "constructor" none
        ≡ deny (some "constructor") unsupported unsupported_tool none none)
unfolding resolve_call_by_name classify_blocked_tool is_key_material is_dangerous get_tool_semantics
    get_unsupported_capability
resolver_tests = (refl, refl, refl)

abbrev balance_visible : Visible
balance_visible = record {
  tool_name = some "get_balance";
  semantics = get_balance;
  matched_input_schema_hash = some get_balance.input_schema_hash;
}

visible_iff_example :
    (resolve_tool_descriptor (named "get_balance" (some get_balance.input_schema_hash))
      ≡ visible balance_visible)
    ↔ IsAccepted (named "get_balance" (some get_balance.input_schema_hash)) balance_visible
visible_iff_example =
    visible_iff (named "get_balance" (some get_balance.input_schema_hash)) balance_visible

abbrev unlock : ToolDescriptor
unlock = record {
  name = some "unlock_keystore";
  tool_name = none;
  description = none;
  input_schema = some (obj end);
  input_schema_hash = some "sha256:0";
  camel_input_schema_hash = none;
}

private_key_name-blocked_example :
    resolve_tool_descriptor (descriptor unlock)
    ≡ deny (some "unlock_keystore") blocked private_key_management_blocked none none
private_key_name-blocked_example =
    private_key_name-blocked unlock "unlock_keystore" refl (inr (inr (inl refl)))
