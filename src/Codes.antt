-- ===== src/Codes.antt =====
-- The codes of the type SafeErrorCode in shared/types/index.ts, and those that
-- packages/coding-agent/src/safe-errors/safeError.js adds: a reason code travels from the package to
-- the proxy unchanged.
use monad_hackathon.Prelude.{Option, String}

-- SafeErrorCode, and the keys of SAFE_MESSAGES.
pub data Code : Type 0 where
  unmapped_tool unsupported_tool private_key_management_blocked dangerous_tool_blocked : Code
  schema_drift upstream_unavailable upstream_error missing_required_evidence : Code
  policy_blocked internal_error unsupported_chain digest_mismatch : Code
  simulation_failed simulation_unavailable broadcast_failed : Code
  policy_source_binding_invalid policy_rpc_chain_mismatch policy_rpc_read_failed : Code
  policy_abi_decode_failed policy_schema_invalid policy_version_unsupported : Code
  policy_contract_stale_or_dead policy_frozen policy_tool_not_allowed : Code
  policy_recipient_not_allowed policy_token_not_allowed policy_spender_not_allowed : Code
  policy_amount_over_cap policy_gas_over_cap policy_unlimited_approval_blocked : Code
  policy_typed_data_not_allowed audit_write_failed policy_allowed user_policy_unresolved : Code
  policy_contract_unavailable llm_safety_blocked llm_safety_unavailable : Code
  policy_owner_only monad_rpc_unavailable : Code

-- The code as the program spells it.
unfoldable pub code_text : Code → String
code_text unmapped_tool = "UNMAPPED_TOOL"
code_text unsupported_tool = "UNSUPPORTED_TOOL"
code_text private_key_management_blocked = "PRIVATE_KEY_MANAGEMENT_BLOCKED"
code_text dangerous_tool_blocked = "DANGEROUS_TOOL_BLOCKED"
code_text schema_drift = "SCHEMA_DRIFT"
code_text upstream_unavailable = "UPSTREAM_UNAVAILABLE"
code_text upstream_error = "UPSTREAM_ERROR"
code_text missing_required_evidence = "MISSING_REQUIRED_EVIDENCE"
code_text policy_blocked = "POLICY_BLOCKED"
code_text internal_error = "INTERNAL_ERROR"
code_text unsupported_chain = "UNSUPPORTED_CHAIN"
code_text digest_mismatch = "DIGEST_MISMATCH"
code_text simulation_failed = "SIMULATION_FAILED"
code_text simulation_unavailable = "SIMULATION_UNAVAILABLE"
code_text broadcast_failed = "BROADCAST_FAILED"
code_text policy_source_binding_invalid = "POLICY_SOURCE_BINDING_INVALID"
code_text policy_rpc_chain_mismatch = "POLICY_RPC_CHAIN_MISMATCH"
code_text policy_rpc_read_failed = "POLICY_RPC_READ_FAILED"
code_text policy_abi_decode_failed = "POLICY_ABI_DECODE_FAILED"
code_text policy_schema_invalid = "POLICY_SCHEMA_INVALID"
code_text policy_version_unsupported = "POLICY_VERSION_UNSUPPORTED"
code_text policy_contract_stale_or_dead = "POLICY_CONTRACT_STALE_OR_DEAD"
code_text policy_frozen = "POLICY_FROZEN"
code_text policy_tool_not_allowed = "POLICY_TOOL_NOT_ALLOWED"
code_text policy_recipient_not_allowed = "POLICY_RECIPIENT_NOT_ALLOWED"
code_text policy_token_not_allowed = "POLICY_TOKEN_NOT_ALLOWED"
code_text policy_spender_not_allowed = "POLICY_SPENDER_NOT_ALLOWED"
code_text policy_amount_over_cap = "POLICY_AMOUNT_OVER_CAP"
code_text policy_gas_over_cap = "POLICY_GAS_OVER_CAP"
code_text policy_unlimited_approval_blocked = "POLICY_UNLIMITED_APPROVAL_BLOCKED"
code_text policy_typed_data_not_allowed = "POLICY_TYPED_DATA_NOT_ALLOWED"
code_text audit_write_failed = "AUDIT_WRITE_FAILED"
code_text policy_allowed = "POLICY_ALLOWED"
code_text user_policy_unresolved = "USER_POLICY_UNRESOLVED"
code_text policy_contract_unavailable = "POLICY_CONTRACT_UNAVAILABLE"
code_text llm_safety_blocked = "LLM_SAFETY_BLOCKED"
code_text llm_safety_unavailable = "LLM_SAFETY_UNAVAILABLE"
code_text policy_owner_only = "POLICY_OWNER_ONLY"
code_text monad_rpc_unavailable = "MONAD_RPC_UNAVAILABLE"

-- ToolClass in shared/types/index.ts, with the classes that the package adds.
pub data ToolClass : Type 0 where
  read_only simulation chain_management transaction_execute token_approval signature : ToolClass
  private_key_management unknown contract_write policy_admin : ToolClass

-- SafeError in shared/types/index.ts.
pub record SafeError : Type 0 where
  pub error_code : Code
  pub safe_message : String
  pub debug_ref : Option String
