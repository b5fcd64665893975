-- ===== src/Audit.antt =====
-- back/services/audit/auditLog.ts and mcp/tools/compassAuditEvents.ts. The file is a list of lines.
-- `randomUUID` and the clock are the parameters `uuid` and `now_iso`, by the number of the call.
pub mod Print
pub mod Laws
mod Tests
use Prim.Native.Nat.{min}
use monad_hackathon.Codes.{Code, ToolClass}
use monad_hackathon.Js.{Fields, Value, arr, end, field, get, num, obj, other_num, undefined}
use monad_hackathon.Prelude.{
  Bool, List, Option, String, [], drop, false, filter, if◌then◌else◌, length, none, not, some,
  str_eq, suc, true, zero, ℕ, ◌++◌, ◌+◌, ◌-◌, ◌∷◌,
}

pub data AuditAction : Type 0 where
  proxy_started upstream_connected upstream_unavailable tools_list_served : AuditAction
  tool_call_received tool_call_forwarded tool_call_blocked upstream_error : AuditAction

pub data AuditResult : Type 0 where
  success blocked failed pending : AuditResult

pub data AuditSource : Type 0 where
  mcp cli system : AuditSource

-- METADATA_ALLOWLIST
abbrev pub metadata_allowlist : List String
metadata_allowlist =
    "exposed_tool_count" ∷ "upstream_tool_count" ∷ "transport" ∷ "chain_label" ∷ "server_name"
    ∷ "server_version" ∷ "duration_ms" ∷ "reason_code" ∷ []

-- Null, a text, a number or a Boolean.
unfoldable pub is_primitive : Value → Bool
is_primitive undefined = false
is_primitive (arr xs) = false
is_primitive (obj fs) = false
is_primitive _ = true

-- The loop of `redactMetadata` over the keys that are left.
unfoldable pub redact_keys : List String → Fields → Fields
unfolding is_primitive get
redact_keys [] metadata = end
redact_keys (k ∷ ks) metadata =
    let rest = redact_keys ks metadata in
    if is_primitive (get k metadata) then field k (get k metadata) rest else rest

non_empty : Fields → Option Fields
non_empty end = none
non_empty (field k v fs) = some (field k v fs)

unfoldable pub redact_metadata : Option Fields → Option Fields
unfolding non_empty
redact_metadata none = none
redact_metadata (some metadata) = non_empty (redact_keys metadata_allowlist metadata)

pub record AuditInput : Type 0 where
  pub action : AuditAction
  pub result : AuditResult
  pub source : Option AuditSource
  pub correlation_id : Option String
  pub tool_name : Option String
  pub tool_class : Option ToolClass
  pub error_code : Option Code
  pub metadata : Option Fields

pub record AuditEvent : Type 0 where
  pub event_id : String
  pub timestamp : String
  pub source : AuditSource
  pub agent_id : String
  pub correlation_id : Option String
  pub tool_name : Option String
  pub tool_class : Option ToolClass
  pub action : AuditAction
  pub result : AuditResult
  pub error_code : Option Code
  pub metadata : Option Fields

-- A line of the file: an event as `record` writes it, a blank line, or a text that is no JSON.
pub data Line : Type 0 where
  event : AuditEvent → Line
  blank malformed : Line

-- `written` counts the calls of `record`.
pub record AuditLog : Type 0 where
  pub agent_id : String
  pub lines : List Line
  pub written : ℕ

or_source : Option AuditSource → AuditSource
or_source none = mcp
or_source (some s) = s

-- `...(s ? { k: s } : {})`: an empty text is left out.
unfoldable pub non_empty_text : Option String → Option String
non_empty_text none = none
non_empty_text (some s) = if str_eq s "" then none else some s

is_blank : Line → Bool
is_blank blank = true
is_blank _ = false

-- `JSON.parse` of each line, in order; a line that is no JSON is skipped.
unfoldable pub parsed : List Line → List AuditEvent
parsed [] = []
parsed (event e ∷ ls) = e ∷ parsed ls
parsed (_ ∷ ls) = parsed ls

unfoldable pub tail : AuditLog → ℕ → List AuditEvent
unfolding parsed is_blank
tail log limit =
    let lines = filter (λ l. not (is_blank l)) log.lines in
    parsed (drop (length lines - limit) lines)

-- A number that is no natural: its whole part if it is positive and finite.
-- `Math.floor` of such a number is the parameter of the section.
module _ (floor_positive : String → Option ℕ) where
  -- The `limit` that the arguments ask for: 50 by default, 500 at most.
  requested_limit : Value → ℕ
  requested_limit (num zero) = 50
  requested_limit (num (suc n)) = min (suc n) 500
  requested_limit (other_num s) = elim (floor_positive s) [ none ↦ 50 | some n ↦ min n 500 ]
  requested_limit _ = 50

  unfoldable pub audit_limit : Value → ℕ
  unfolding requested_limit get
  audit_limit (obj fs) = requested_limit (get "limit" fs)
  audit_limit _ = 50

  pub record CompassAuditEventsResult : Type 0 where
    pub count : ℕ
    pub events : List AuditEvent

  unfoldable pub build_compass_audit_events : AuditLog → Value → CompassAuditEventsResult
  unfolding audit_limit tail
  build_compass_audit_events log raw_args =
      let events = tail log (audit_limit raw_args) in
      record { count = length events; events = events }

module _ (uuid now_iso : ℕ → String) where
  unfoldable pub event_of : AuditLog → AuditInput → AuditEvent
  unfolding or_source non_empty_text redact_metadata
  event_of log input = record {
    event_id = uuid log.written;
    timestamp = now_iso log.written;
    source = or_source input.source;
    agent_id = log.agent_id;
    correlation_id = non_empty_text input.correlation_id;
    tool_name = non_empty_text input.tool_name;
    tool_class = input.tool_class;
    action = input.action;
    result = input.result;
    error_code = input.error_code;
    metadata = redact_metadata input.metadata;
  }

  unfoldable pub append_event : AuditLog → AuditInput → AuditLog
  unfolding event_of
  append_event log input = record log {
    lines = log.lines ++ event (event_of log input) ∷ [];
    written = log.written + 1;
  }
