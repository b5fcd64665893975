-- ===== src/Proxy/Interceptor/Trail.antt =====
-- What the interceptor writes to the audit log about one call.
use mathlib.Core.List.{append_assoc}
use monad_hackathon.Audit.{
  AuditAction, AuditEvent, AuditResult, append_event, event, non_empty_text, pending, success,
  tool_call_forwarded, tool_call_received,
}
use monad_hackathon.Codes.{
  SafeError, ToolClass, internal_error, missing_required_evidence, upstream_error,
  upstream_unavailable,
}
use monad_hackathon.Js.{Fields, Value}
use monad_hackathon.Prelude.{
  Bool-cases, Option, String, [], inl, inr, none, refl, some, ℕ, ◌++◌, ◌∙◌, ◌∷◌, ◌≡◌, ◌≢◌,
}
use monad_hackathon.Proxy.Interceptor.{
  CallInterceptor, GuardedReply, GuardedRunner, InterceptOutcome, InterceptResult, after_call,
  after_guard, block, call_entry, crashed, fail_upstream, failed, forward, forwarded,
  handle_outcome, handle_upstream_call, meta, note, ok, plan, refuse, refused, run_forward, skipped,
  succeed,
}
use monad_hackathon.Proxy.Schemas.{sanitize_to_safe_error}
use monad_hackathon.Proxy.Upstream.{Outcome, Sdk, UpstreamClient, call_tool, returned, threw}

-- The entry that fits the result.
abbrev pub Matches : AuditEvent → InterceptResult → Type 0
Matches e (meta name id) = ⊥
Matches e (forwarded name value id) =
    (e.action ≡ tool_call_forwarded) × (e.result ≡ success) × (e.error_code ≡ none)
Matches e (refused error id) = (e.result ≢ success) × (e.error_code ≡ some error.error_code)

-- One entry has been added to the log, under the correlation id, and it fits the result.
pub record IsLogged (c : CallInterceptor) (id : String) (out : CallInterceptor × InterceptResult)
    : Type 0 where
  pub entry : AuditEvent
  pub lines : out.0.audit.lines ≡ c.audit.lines ++ event entry ∷ []
  pub matches : Matches entry out.1
  pub correlation : entry.correlation_id ≡ non_empty_text (some id)

module _ (uuid now_iso : ℕ → String) (sdk : Sdk) where
  refuse-IsLogged :
      (action : AuditAction) (result : AuditResult) (name id : String) (class : Option ToolClass)
      (metadata : Option Fields) (error : SafeError) (c : CallInterceptor)
      → result ≢ success
      → IsLogged c id (
          refuse uuid now_iso sdk
            (call_entry action result name id class (some error.error_code) metadata)
            error
            id
            c)
  unfolding refuse append_event call_entry
  refuse-IsLogged action result name id class metadata error c h = record {
    entry = _;
    lines = refl;
    matches = (h, refl);
    correlation = refl;
  }

  succeed-IsLogged :
      (name id : String) (class : ToolClass) (value : Value) (c : CallInterceptor)
      → IsLogged c id (succeed uuid now_iso sdk name id class value c)
  unfolding succeed append_event
  succeed-IsLogged name id class value c = record {
    entry = _;
    lines = refl;
    matches = (refl, refl, refl);
    correlation = refl;
  }

  after_call-IsLogged :
      (name id : String) (class : ToolClass) (c : CallInterceptor) (answer : Outcome Value)
      → IsLogged c id (after_call uuid now_iso sdk name id class c answer)
  unfolding after_call fail_upstream sanitize_to_safe_error
  after_call-IsLogged name id class c (returned value) = succeed-IsLogged name id class value c
  after_call-IsLogged name id class c threw =
      refuse-IsLogged _ _ name id _ _ (sanitize_to_safe_error upstream_error) c cc

  after_guard-IsLogged :
      (name id : String) (class : ToolClass) (c : CallInterceptor) (reply : GuardedReply)
      → IsLogged c id (after_guard uuid now_iso sdk name id class c reply)
  unfolding after_guard fail_upstream sanitize_to_safe_error
  after_guard-IsLogged name id class c (ok value) = succeed-IsLogged name id class value c
  after_guard-IsLogged name id class c crashed =
      refuse-IsLogged _ _ name id _ _ (sanitize_to_safe_error upstream_error) c cc
  after_guard-IsLogged name id class c (failed error) = refuse-IsLogged _ _ name id _ _ error c cc
  after_guard-IsLogged name id class c (skipped reason) =
      refuse-IsLogged _ _ name id _ _ (sanitize_to_safe_error missing_required_evidence) c cc

  run_forward-IsLogged :
      (guarded : Option GuardedRunner) (name id : String) (class : ToolClass) (args : Fields)
      (c : CallInterceptor)
      → IsLogged c id (run_forward uuid now_iso sdk guarded name id class args c)
  unfolding run_forward
  run_forward-IsLogged none name id class args c =
      let (upstream, answer) = call_tool sdk name args c.upstream in
      relog (after_call-IsLogged name id class (record c { upstream = upstream }) answer)
    where
      relog :
          {u : UpstreamClient} {out : CallInterceptor × InterceptResult}
          → IsLogged (record c { upstream = u }) id out
          → IsLogged c id out
      relog l = record {
        entry = l.entry;
        lines = l.lines;
        matches = l.matches;
        correlation = l.correlation;
      }
  run_forward-IsLogged (some guard) name id class args c =
      let (upstream, reply) = guard name args (call_tool sdk) c.upstream in
      let l = after_guard-IsLogged name id class (record c { upstream = upstream }) reply in
      record { entry = l.entry; lines = l.lines; matches = l.matches; correlation = l.correlation }

  handle_outcome-IsLogged :
      (name id : String) (args : Fields) (c : CallInterceptor) (outcome : InterceptOutcome)
      → IsLogged c id (handle_outcome uuid now_iso sdk name id args c outcome)
  unfolding handle_outcome sanitize_to_safe_error
  handle_outcome-IsLogged name id args c (meta tool) =
      refuse-IsLogged _ _ name id _ _ (sanitize_to_safe_error internal_error) c cc
  handle_outcome-IsLogged name id args c (block tool error) =
      refuse-IsLogged _ _ name id _ _ error c cc
  handle_outcome-IsLogged name id args c (forward tool class) =
      elim (Bool-cases c.upstream.state.connected) [
        | inl on ↦ simp on (run_forward-IsLogged c.guarded name id class args c)
        | inr off ↦
            simp off
              (refuse-IsLogged _ _ name id _ _ (sanitize_to_safe_error upstream_unavailable) c cc)
      ]

-- Every call that the interceptor handles adds exactly two entries to the log, both under the
-- call's correlation id: first that it was received, and then one that fits the result, a success if
-- it was forwarded, and otherwise no success, with the code of the error that the host is given.
pub handle_upstream_call_trail :
    (uuid now_iso : ℕ → String) (sdk : Sdk) (sha256 : String → String)
    (record_of : Value → Option Fields) (id name : String) (raw_args : Value) (c : CallInterceptor)
    → (received settled : AuditEvent) × ((handle_upstream_call uuid now_iso sdk sha256 record_of id
          name raw_args c).0.audit.lines
        ≡ c.audit.lines ++ event received ∷ event settled ∷ [])
      × (received.action ≡ tool_call_received)
      × (received.result ≡ pending)
      × Matches settled
          (handle_upstream_call uuid now_iso sdk sha256 record_of id name raw_args c).1
      × (received.correlation_id ≡ non_empty_text (some id))
      × (settled.correlation_id ≡ non_empty_text (some id))
unfolding handle_upstream_call append_event
handle_upstream_call_trail uuid now_iso sdk sha256 record_of id name raw_args c =
    let (outcome, args) = plan sha256 record_of c name raw_args in
    let l =
      handle_outcome-IsLogged uuid now_iso sdk name id args
        (note uuid now_iso sdk (call_entry tool_call_received pending name id none none none) c)
        outcome in
    (
      _,
      l.entry,
      l.lines ∙ append_assoc c.audit.lines _ _,
      refl,
      refl,
      l.matches,
      refl,
      l.correlation,
    )
