-- ===== src/Proxy/Schemas.antt =====
-- mcp/proxy/schemas.ts, and MAX_ARGS_BYTES of shared/constants/index.ts. What zod's
-- `z.record(z.string(), z.unknown())` accepts is the parameter `record_of`.
use Prim.Native.String.{len, ◌++◌ as ◌+++◌}
use Prim.Native.Char.{code}
use monad_hackathon.Codes.{
  Code, SafeError, broadcast_failed, code_text, dangerous_tool_blocked, digest_mismatch,
  internal_error, missing_required_evidence, policy_blocked, private_key_management_blocked,
  schema_drift, simulation_failed, simulation_unavailable, unmapped_tool, unsupported_chain,
  unsupported_tool, upstream_error, upstream_unavailable,
}
use monad_hackathon.Js.{Fields, Value, end, field, obj, str}
use monad_hackathon.Js.Json.{stringify}
use monad_hackathon.Prelude.{Bool, Option, String, if◌then◌else◌, leb, none, some, str_eq, true, ℕ}

-- 256 * 1024
abbrev pub max_args_bytes : ℕ
max_args_bytes = 262144

module _ (record_of : Value → Option Fields) where
  -- `ToolCallArgsSchema.safeParse(raw)`: an object whose JSON text has a bounded number of bytes.
  unfoldable pub parse_tool_call_args : Value → Option Fields
  unfolding stringify
  parse_tool_call_args raw = elim (record_of raw) [
    | none ↦ none
    | some args ↦ if leb (len (stringify (obj args))) max_args_bytes then some args else none
  ]

unfoldable pub make_safe_error : Code → String → Option String → SafeError
make_safe_error code message debug_ref = record {
  error_code = code;
  safe_message = message;
  debug_ref = elim debug_ref [ none ↦ none | some r ↦ if str_eq r "" then none else some r ];
}

-- The table of `sanitizeToSafeError`. A code that the table lacks has the message `undefined`.
unfoldable pub proxy_message : Code → Option String
proxy_message unmapped_tool = some "This tool is not exposed by Compass."
proxy_message unsupported_tool = some "This tool is not supported by Compass."
proxy_message private_key_management_blocked =
    some "Private-key and keystore management tools are blocked by Compass."
proxy_message dangerous_tool_blocked =
    some "This tool is blocked by Compass before policy evaluation."
proxy_message schema_drift =
    some "This tool schema no longer matches the reviewed Compass registry."
proxy_message upstream_unavailable = some "The upstream is not available."
proxy_message upstream_error = some "The upstream returned an error."
proxy_message missing_required_evidence = some "The request is missing required fields."
proxy_message policy_blocked = some "This tool is blocked by Compass in the current wave."
proxy_message internal_error = some "An internal error occurred."
proxy_message unsupported_chain = some "The requested chain is not supported."
proxy_message digest_mismatch = some "The candidate transaction digest did not match."
proxy_message simulation_failed = some "Simulation failed."
proxy_message simulation_unavailable = some "Simulation is unavailable."
proxy_message broadcast_failed = some "Broadcast failed."
proxy_message _ = none

-- `${undefined}`
or_undefined : Option String → String
or_undefined none = "undefined"
or_undefined (some s) = s

unfoldable pub sanitize_to_safe_error : Code → SafeError
unfolding make_safe_error proxy_message or_undefined
sanitize_to_safe_error code = make_safe_error code (or_undefined (proxy_message code)) none

pub record ToolResult : Type 0 where
  pub is_error : Bool
  pub text : String
  pub structured_content : Value

error_value : SafeError → Value
unfolding code_text
error_value e = obj (
    field "error_code" (str (code_text e.error_code)) (
      field "safe_message" (str e.safe_message)
        (elim e.debug_ref [ none ↦ end | some r ↦ field "debug_ref" (str r) end ])))

unfoldable pub safe_error_to_tool_result : SafeError → ToolResult
unfolding error_value code_text
safe_error_to_tool_result e = record {
  is_error = true;
  text = code_text e.error_code +++ (": " +++ e.safe_message);
  structured_content = obj (field "error" (error_value e) end);
}
