-- ===== src/Audit/Print.antt =====
-- The JSON object of an audit event, with its properties in the order of the literal in `record` of
-- back/services/audit/auditLog.ts.
use monad_hackathon.Audit.{
  AuditAction, AuditEvent, AuditResult, AuditSource, cli, mcp, pending, proxy_started, success,
  system, tool_call_blocked, tool_call_forwarded, tool_call_received, tools_list_served,
  upstream_connected,
}
use monad_hackathon.Codes.{
  ToolClass, chain_management, code_text, contract_write, policy_admin, private_key_management,
  read_only, simulation, token_approval, transaction_execute, unknown,
}
use monad_hackathon.Js.{Fields, Items, Value, cons, end, field, nil, obj, str}
use monad_hackathon.Prelude.{List, Option, String, [], none, some, ◌∷◌}

unfoldable pub action_text : AuditAction → String
action_text proxy_started = "proxy_started"
action_text upstream_connected = "upstream_connected"
action_text AuditAction.upstream_unavailable = "upstream_unavailable"
action_text tools_list_served = "tools_list_served"
action_text tool_call_received = "tool_call_received"
action_text tool_call_forwarded = "tool_call_forwarded"
action_text tool_call_blocked = "tool_call_blocked"
action_text AuditAction.upstream_error = "upstream_error"

unfoldable pub result_text : AuditResult → String
result_text success = "success"
result_text AuditResult.blocked = "blocked"
result_text AuditResult.failed = "failed"
result_text pending = "pending"

unfoldable pub source_text : AuditSource → String
source_text mcp = "mcp"
source_text cli = "cli"
source_text system = "system"

unfoldable pub class_text : ToolClass → String
class_text read_only = "read_only"
class_text simulation = "simulation"
class_text chain_management = "chain_management"
class_text transaction_execute = "transaction_execute"
class_text token_approval = "token_approval"
class_text ToolClass.signature = "signature"
class_text private_key_management = "private_key_management"
class_text unknown = "unknown"
class_text contract_write = "contract_write"
class_text policy_admin = "policy_admin"

-- A property that is there only where its value is.
optional {ℓ} : {A : Type ℓ} → String → (A → Value) → Option A → Fields → Fields
optional key value none rest = rest
optional key value (some a) rest = field key (value a) rest

unfoldable pub event_value : AuditEvent → Value
unfolding action_text result_text source_text class_text optional code_text
event_value e = obj (
    field "event_id" (str e.event_id) (
      field "timestamp" (str e.timestamp) (
        field "source" (str (source_text e.source)) (
          field "agent_id" (str e.agent_id) (
            optional "correlation_id" str e.correlation_id (
              optional "tool_name" str e.tool_name (
                optional "tool_class" (λ c. str (class_text c)) e.tool_class
                  (field "action" (str (action_text e.action)) (
                    field "result" (str (result_text e.result)) (
                      optional "error_code" (λ c. str (code_text c)) e.error_code
                        (optional "metadata" obj e.metadata end)))))))))))

unfoldable pub events_value : List AuditEvent → Items
unfolding event_value
events_value [] = nil
events_value (e ∷ es) = cons (event_value e) (events_value es)
