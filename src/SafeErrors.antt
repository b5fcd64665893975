-- ===== src/SafeErrors.antt =====
-- packages/coding-agent/src/safe-errors/safeError.js, and policySourceErrors.js of the policy source,
-- whose errors it makes.
use Prim.Native.Char.{code}
use monad_hackathon.Codes.{
  Code, audit_write_failed, dangerous_tool_blocked, digest_mismatch, internal_error,
  llm_safety_blocked, llm_safety_unavailable, missing_required_evidence, monad_rpc_unavailable,
  policy_abi_decode_failed, policy_allowed, policy_amount_over_cap, policy_contract_stale_or_dead,
  policy_contract_unavailable, policy_frozen, policy_gas_over_cap, policy_owner_only,
  policy_recipient_not_allowed, policy_rpc_chain_mismatch, policy_rpc_read_failed,
  policy_schema_invalid, policy_source_binding_invalid, policy_spender_not_allowed,
  policy_token_not_allowed, policy_tool_not_allowed, policy_typed_data_not_allowed,
  policy_unlimited_approval_blocked, policy_version_unsupported, private_key_management_blocked,
  schema_drift, simulation_failed, simulation_unavailable, unmapped_tool, unsupported_tool,
  upstream_error, upstream_unavailable, user_policy_unresolved,
}
use monad_hackathon.Js.{Value, end, obj, or_else}
use monad_hackathon.Prelude.{Option, String, if◌then◌else◌, none, some, str_eq}
use monad_hackathon.Redaction.{redact_value}

-- SAFE_MESSAGES, `none` for a code that it lacks.
safe_messages : Code → Option String
safe_messages policy_source_binding_invalid = some "Policy source binding is invalid or incomplete."
safe_messages policy_rpc_chain_mismatch = some "Policy source is not bound to Monad Testnet."
safe_messages policy_rpc_read_failed = some "Policy source could not be read safely."
safe_messages policy_abi_decode_failed =
    some "Policy contract response could not be decoded safely."
safe_messages policy_schema_invalid = some "Policy contract state failed schema validation."
safe_messages policy_version_unsupported = some "Policy version is not supported by this evaluator."
safe_messages policy_contract_stale_or_dead =
    some "Policy contract address has no readable policy code."
safe_messages policy_frozen = some "Policy is frozen and blocks policy-gated calls."
safe_messages policy_tool_not_allowed = some "Tool is not allowed by policy."
safe_messages policy_recipient_not_allowed = some "Recipient is not allowed by policy."
safe_messages policy_token_not_allowed = some "Token is not allowed by policy."
safe_messages policy_spender_not_allowed = some "Spender is not allowed by policy."
safe_messages policy_amount_over_cap = some "Amount exceeds policy cap."
safe_messages policy_gas_over_cap = some "Gas cost exceeds policy cap."
safe_messages policy_unlimited_approval_blocked = some "Unlimited token approval is blocked."
safe_messages policy_typed_data_not_allowed = some "Typed data signature is not allowed by policy."
safe_messages missing_required_evidence = some "Required evidence is missing."
safe_messages simulation_unavailable = some "Required simulation is unavailable."
safe_messages simulation_failed = some "Simulation failed."
safe_messages audit_write_failed = some "Audit write failed; request blocked."
safe_messages internal_error = some "Internal policy evaluation error."
safe_messages unmapped_tool = some "Tool is not registered in Compass semantics."
safe_messages unsupported_tool = some "Tool is unsupported by current Compass evidence."
safe_messages private_key_management_blocked =
    some "Private-key or keystore management tools are blocked."
safe_messages dangerous_tool_blocked = some "Dangerous tool is blocked before policy."
safe_messages schema_drift = some "Tool schema drifted from the registry."
safe_messages policy_allowed = some "Policy allowed the request."
safe_messages user_policy_unresolved = some "User policy could not be resolved."
safe_messages policy_contract_unavailable = some "Policy contract is unavailable."
safe_messages digest_mismatch = some "Candidate transaction digest did not match."
safe_messages llm_safety_blocked = some "Final safety review blocked the request."
safe_messages llm_safety_unavailable = some "Final safety review is unavailable; request blocked."
safe_messages upstream_unavailable = some "The upstream is not available."
safe_messages upstream_error = some "The upstream returned an error."
safe_messages policy_owner_only = some "Only the policy owner may modify this policy."
safe_messages monad_rpc_unavailable = some "Monad RPC is unavailable; request blocked."
safe_messages _ = none

abbrev internal_message : String
internal_message = "Internal policy evaluation error."

or_internal : Option String → String
or_internal none = internal_message
or_internal (some s) = s

-- The message of an error with the code.
unfoldable pub message_of : Code → String
unfolding safe_messages or_internal
message_of code = or_internal (safe_messages code)

pub record PackageError : Type 0 where
  pub code : Code
  pub error_code : Code
  pub safe_message : String
  pub debug_ref : String
  pub details : Value

code_or_internal : Option Code → Code
code_or_internal none = internal_error
code_or_internal (some c) = c

given_or : Option String → String → String
given_or none made = made
given_or (some ref) made = if str_eq ref "" then made else ref

-- `createSafeError`; `debug_ref` makes the reference of a code, from the time and a random number.
unfoldable pub create_safe_error :
    (Code → String) → Option Code → Option String → Value → PackageError
unfolding message_of code_or_internal given_or redact_value or_else
create_safe_error debug_ref code given_ref safe_details = record {
  code = code_or_internal code;
  error_code = code_or_internal code;
  safe_message = or_internal (elim code [ none ↦ none | some c ↦ safe_messages c ]);
  debug_ref = given_or given_ref (debug_ref (code_or_internal code));
  details = redact_value 0 (or_else safe_details (obj end));
}

-- `policySourceError`
unfoldable pub policy_source_error : (Code → String) → Code → Value → PackageError
unfolding create_safe_error
policy_source_error debug_ref code safe_details =
    create_safe_error debug_ref (some code) none safe_details
