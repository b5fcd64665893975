-- ===== src/Proxy/Interceptor.antt =====
-- mcp/proxy/callInterceptor.ts. The guarded pipeline is an argument, as it is in the source.
pub mod Safety
pub mod Trail
pub mod Kept
pub mod Guarded
use Prim.Native.Char.{code}
use monad_hackathon.Audit.{
  AuditAction, AuditInput, AuditLog, AuditResult, append_event, pending, success, tool_call_blocked,
  tool_call_forwarded, tool_call_received,
}
use monad_hackathon.Codes.{
  Code, SafeError, ToolClass, code_text, internal_error, missing_required_evidence, policy_blocked,
  upstream_error, upstream_unavailable,
}
use monad_hackathon.Js.{Fields, Value, end, field, null, obj, str, undefined}
use monad_hackathon.Prelude.{
  Bool, Option, String, false, if◌then◌else◌, none, not, some, str_eq, true, ℕ, ◌&&◌, ◌||◌,
}
use monad_hackathon.Proxy.Bridge.{default_allows, resolve_tool_for_call}
use monad_hackathon.Proxy.Schemas.{make_safe_error, parse_tool_call_args, sanitize_to_safe_error}
use monad_hackathon.Proxy.Upstream.{
  Outcome, Sdk, UpstreamClient, call_tool, get_upstream_tool_descriptor, returned, threw,
}
use monad_hackathon.ToolSemantics.Resolver.{Resolution, denied, visible}

pub data InterceptOutcome : Type 0 where
  meta : String → InterceptOutcome
  forward : String → ToolClass → InterceptOutcome
  block : String → SafeError → InterceptOutcome

pub data InterceptResult : Type 0 where
  meta : String → String → InterceptResult
  forwarded : String → Value → String → InterceptResult
  refused : SafeError → String → InterceptResult

-- What the runner of the pipeline settles to; `crashed` is a rejected promise.
pub data GuardedReply : Type 0 where
  ok : Value → GuardedReply
  failed : SafeError → GuardedReply
  skipped : String → GuardedReply
  crashed : GuardedReply

-- The runner is given the tool, the arguments and the way to call the upstream.
abbrev pub GuardedRunner : Type 0
GuardedRunner =
    String
    → Fields
    → (String → Fields → UpstreamClient → UpstreamClient × Outcome Value)
    → UpstreamClient
    → UpstreamClient × GuardedReply

pub record CallInterceptor : Type 0 where
  pub upstream : UpstreamClient
  pub audit : AuditLog
  pub guarded : Option GuardedRunner

is_none : Option GuardedRunner → Bool
is_none none = true
is_none (some g) = false

-- `rawArgs ?? {}`
unfoldable pub or_no_args : Value → Value
or_no_args undefined = obj end
or_no_args null = obj end
or_no_args v = v

-- The rest of `plan` for a tool that is not Compass's own.
plan_resolved : Bool → String → Resolution → InterceptOutcome
unfolding sanitize_to_safe_error
plan_resolved unguarded name (denied d) = block name (sanitize_to_safe_error d.safe_reason_code)
plan_resolved unguarded name (visible v) =
    if unguarded && not (default_allows v.semantics)
    then block name (sanitize_to_safe_error policy_blocked)
    else forward name v.semantics.tool_class

module _ (sha256 : String → String) (record_of : Value → Option Fields) where
  unfoldable pub plan : CallInterceptor → String → Value → InterceptOutcome × Fields
  unfolding plan_resolved or_no_args is_none
  plan c name raw_args = elim (parse_tool_call_args record_of (or_no_args raw_args)) [
    | none ↦ (
      block name (make_safe_error missing_required_evidence "Invalid or oversized arguments." none),
      end,
    )
    | some args ↦
        if str_eq name "compass_status" || str_eq name "compass_audit_events"
        then (meta name, args)
        else (
          plan_resolved (is_none c.guarded) name (
              resolve_tool_for_call sha256 name (get_upstream_tool_descriptor c.upstream name)
                c.upstream.state.connected),
          args,
        )
  ]

-- One audit entry about a call.
call_entry :
    AuditAction
    → AuditResult
    → String
    → String
    → Option ToolClass
    → Option Code
    → Option Fields
    → AuditInput
call_entry action result name id class code metadata = record {
  action = action;
  result = result;
  source = none;
  correlation_id = some id;
  tool_name = some name;
  tool_class = class;
  error_code = code;
  metadata = metadata;
}

reason_code : String → Option Fields
reason_code text = some (field "reason_code" (str text) end)

module _ (uuid now_iso : ℕ → String) (sdk : Sdk) where
  note : AuditInput → CallInterceptor → CallInterceptor
  note input c = record c { audit = append_event uuid now_iso c.audit input }

  -- A refusal, with its entry.
  refuse : AuditInput → SafeError → String → CallInterceptor → CallInterceptor × InterceptResult
  unfolding note
  refuse input error id c = (note input c, refused error id)

  succeed :
      String → String → ToolClass → Value → CallInterceptor → CallInterceptor × InterceptResult
  unfolding note call_entry
  succeed name id class value c = (
    note (call_entry tool_call_forwarded success name id (some class) none none) c,
    forwarded name value id,
  )

  -- The `catch`.
  fail_upstream : String → String → ToolClass → CallInterceptor → CallInterceptor × InterceptResult
  unfolding refuse call_entry
  fail_upstream name id class c =
      refuse
        (call_entry AuditAction.upstream_error AuditResult.failed name id (some class)
          (some upstream_error) none)
        (sanitize_to_safe_error upstream_error) id c

  after_guard :
      String
      → String
      → ToolClass
      → CallInterceptor
      → GuardedReply
      → CallInterceptor × InterceptResult
  unfolding succeed fail_upstream reason_code code_text
  after_guard name id class c (ok value) = succeed name id class value c
  after_guard name id class c crashed = fail_upstream name id class c
  after_guard name id class c (failed error) =
      refuse
        (call_entry tool_call_blocked AuditResult.blocked name id (some class)
          (some error.error_code) (reason_code (code_text error.error_code)))
        error id c
  after_guard name id class c (skipped reason) =
      refuse
        (call_entry tool_call_blocked AuditResult.blocked name id (some class)
          (some missing_required_evidence) (reason_code reason))
        (sanitize_to_safe_error missing_required_evidence) id c

  after_call :
      String
      → String
      → ToolClass
      → CallInterceptor
      → Outcome Value
      → CallInterceptor × InterceptResult
  unfolding succeed fail_upstream
  after_call name id class c (returned value) = succeed name id class value c
  after_call name id class c threw = fail_upstream name id class c

  -- The `try` of `handleUpstreamCall`.
  run_forward :
      Option GuardedRunner
      → String
      → String
      → ToolClass
      → Fields
      → CallInterceptor
      → CallInterceptor × InterceptResult
  unfolding after_guard after_call
  run_forward none name id class args c =
      let (upstream, answer) = call_tool sdk name args c.upstream in
      after_call name id class (record c { upstream = upstream }) answer
  run_forward (some guard) name id class args c =
      let (upstream, reply) = guard name args (call_tool sdk) c.upstream in
      after_guard name id class (record c { upstream = upstream }) reply

  handle_outcome :
      String
      → String
      → Fields
      → CallInterceptor
      → InterceptOutcome
      → CallInterceptor × InterceptResult
  unfolding refuse run_forward code_text
  handle_outcome name id args c (meta tool) =
      refuse
        (call_entry tool_call_blocked AuditResult.blocked name id none (some internal_error) none)
        (sanitize_to_safe_error internal_error) id c
  handle_outcome name id args c (block tool error) =
      refuse
        (call_entry tool_call_blocked AuditResult.blocked name id none (some error.error_code)
          (reason_code (code_text error.error_code)))
        error id c
  handle_outcome name id args c (forward tool class) =
      if not c.upstream.state.connected
      then refuse
          (call_entry AuditAction.upstream_unavailable AuditResult.failed name id none
            (some upstream_unavailable) none)
          (sanitize_to_safe_error upstream_unavailable) id c
      else run_forward c.guarded name id class args c

  -- `correlation_id` is what `randomUUID` gives the call.
  unfoldable pub handle_upstream_call :
      (String → String)
      → (Value → Option Fields)
      → String
      → String
      → Value
      → CallInterceptor
      → CallInterceptor × InterceptResult
  unfolding plan handle_outcome note call_entry
  handle_upstream_call sha256 record_of correlation_id name raw_args c =
      let (outcome, args) = plan sha256 record_of c name raw_args in
      handle_outcome name correlation_id args
        (note (call_entry tool_call_received pending name correlation_id none none none) c) outcome
