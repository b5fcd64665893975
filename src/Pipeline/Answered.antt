-- ===== src/Pipeline/Answered.antt =====
-- What a cleared run of the pipeline is answered with.
use monad_hackathon.Codes.{Code, ToolClass}
use monad_hackathon.Consent.{check_consent}
use monad_hackathon.Coverage.{
  CoverContext, Covering, call_for, cover_tool_call, guarded, needs_consent, semantics_for,
  setting_for, skipped,
}
use monad_hackathon.Coverage.Consented.{cover_tool_call-covers_iff, covers}
use monad_hackathon.Forward.{
  Clearance, Gate, Setting, ToolCall, class_of, cleared, gate_of, resolve_policy, stopped,
}
use monad_hackathon.Forward.Cleared.{goes_on}
use monad_hackathon.Forward.Once.{key_for-filled, of_key}
use monad_hackathon.Forward.Run.{
  Pending, Progress, allow_result, begin_forward, block_result, calls_upstream, end_forward,
  end_with, forward_key, launch, launch_keyed, progress_of,
}
use monad_hackathon.Idempotency.{IdempotencyStore, Settlement, begin, new_store, starts}
use monad_hackathon.Js.{Fields, Value}
use monad_hackathon.Pipeline.{
  RunnerConfig, RunnerState, covered_call, finish, live_context, live_setting, prepared, reply_of,
  run_guarded, settle_call, settlement_of, value_or_undefined,
}
use monad_hackathon.Pipeline.Cleared.{RunIsCleared, consent_in, outcome_in}
use monad_hackathon.Policy.{PolicySnapshot}
use monad_hackathon.Prelude.{
  Bool, Bool-cases, List, Option, String, ap, eq_iff, false, if◌then◌else◌, inl, inr, none, not,
  refl, some, str_eq, true, ◌&&◌, ◌≡◌, ◌≢◌,
}
use monad_hackathon.Proxy.Interceptor.{ok}
use monad_hackathon.Proxy.Upstream.{Outcome, UpstreamClient, returned}
use monad_hackathon.Rpc.{Fetched, Posted, Transport}
use monad_hackathon.Source.Fetch.{PolicyTransport}
use monad_hackathon.ToolSemantics.Resolver.{resolve_call_by_name}

filled_test : (key : String) → key ≢ "" → str_eq key "" ≡ false
filled_test key h = elim (Bool-cases (str_eq key "")) [
  | inl same ↦ absurd (h ((eq_iff key "").0 same))
  | inr other ↦ other
]

module _ {R E : Type 0} where
  -- The call of the upstream is under way.
  abbrev pub IsCalling : Progress R E → Type 0
  IsCalling p = (waiting : Pending) × (p ≡ calls_upstream waiting)

  begin-new : (key : String) → key ≢ "" → (begin {A = R} {E = E} key new_store).1 ≡ starts
  unfolding begin
  begin-new key h = rw (filled_test key h) refl

  launch_keyed-IsCalling :
      (call : ToolCall) (p : Option PolicySnapshot) (c : Clearance) (o : Option String)
      → ((key : String) → o ≡ some key → key ≢ "")
      → IsCalling (launch_keyed call p c o new_store).1
  unfolding launch_keyed progress_of
  launch_keyed-IsCalling call p c none h = (_, refl)
  launch_keyed-IsCalling call p c (some key) h =
      (_, ap (progress_of call p c key) (begin-new key (h key refl)))

  launch-IsCalling :
      (call : ToolCall) (p : Option PolicySnapshot) (k : Option ToolClass) (gate : Gate)
      → goes_on (launch {R = R} {E = E} call p k gate (some new_store)).1 ≡ true
      → IsCalling (launch call p k gate (some new_store)).1
  unfolding launch block_result
  launch-IsCalling call p k (stopped stop) h = cc h
  launch-IsCalling call p k (cleared c) h =
      launch_keyed-IsCalling call p c (forward_key call c)
        (λ key e. key_for-filled call c.semantics.tool_class c.digest key (of_key call c key e))

  begin_forward-IsCalling :
      (number_of_text : String → Value) (call : ToolCall) (setting : Setting)
      → goes_on (begin_forward {R = R} {E = E} number_of_text call setting (some new_store)).1
        ≡ true
      → IsCalling (begin_forward number_of_text call setting (some new_store)).1
  unfolding begin_forward
  begin_forward-IsCalling number_of_text call setting h =
      launch-IsCalling call (resolve_policy setting.source).0
        (class_of (resolve_call_by_name call.tool_name call.input_schema_hash))
        (gate_of number_of_text call setting) h

  -- A covering whose call of the upstream is under way.
  IsCovered : Covering R E → Type 0
  IsCovered c = (waiting : Pending) × (c ≡ guarded (calls_upstream waiting))

  guard-IsCovered :
      (needs fine : Bool) (names : List String) (store after : Option (IdempotencyStore R E))
      (progress : Progress R E)
      → (goes_on progress ≡ true → IsCalling progress)
      → let c : Option (IdempotencyStore R E) × Covering R E =
          if needs && not fine then (store, skipped names) else (after, guarded progress) in
        covers c.1 ≡ true → IsCovered c.1
  unfolding IsCovered
  guard-IsCovered true true names store after progress f h =
      let (waiting, e) = f h in (waiting, ap guarded e)
  guard-IsCovered true false names store after progress f h = cc h
  guard-IsCovered false fine names store after progress f h =
      let (waiting, e) = f h in (waiting, ap guarded e)

module _ (R E : Type 0) where
  cover_tool_call-IsCovered :
      (number_of_text : String → Value) (tool_name : String) (args : Fields) (ctx : CoverContext)
      (outcome consent : Value) (setting : Setting)
      → covers
          (cover_tool_call {R = R} {E = E} number_of_text tool_name args ctx outcome consent setting
            (some new_store)).1
        ≡ true
      → IsCovered
          (cover_tool_call {R = R} {E = E} number_of_text tool_name args ctx outcome consent setting
            (some new_store)).1
  unfolding cover_tool_call
  cover_tool_call-IsCovered number_of_text tool_name args ctx outcome consent setting h =
      let call = call_for tool_name args in
      let filled = setting_for number_of_text tool_name args ctx outcome setting in
      let begun = begin_forward number_of_text call filled (some new_store) in
      guard-IsCovered (needs_consent (semantics_for tool_name)) (check_consent consent).ok
        (check_consent consent).missing (some new_store) begun.0 begun.1
        (begin_forward-IsCalling number_of_text call filled) h

module _ (number_of_text : String → Value) (debug_ref : Code → String) (fetch : Posted → Fetched)
    (config : RunnerConfig) (tool_name : String) (args : Fields)
    (another : Settlement Value (Unit {0}))
    (forward : String → Fields → UpstreamClient → UpstreamClient × Outcome Value)
    (u : UpstreamClient) (v : Value) (answered : (forward tool_name args u).1 ≡ returned v) where
  finish-answers :
      (setting : Setting) (rpc : Transport) (store : IdempotencyStore Value (Unit {0}))
      (after : Option (IdempotencyStore Value (Unit {0}))) (c : Covering Value (Unit {0}))
      → IsCovered c
      → let r =
          finish number_of_text debug_ref fetch config forward tool_name args another setting rpc
            store
            (after, c)
            u in
        (r.1 ≡ (forward tool_name args u).0) × (r.2 ≡ ok v)
  unfolding IsCovered finish settle_call end_forward settlement_of end_with reply_of allow_result
      value_or_undefined
  finish-answers setting rpc store after c (waiting, e) = rw e (refl, rw answered refl)

  covered_call-IsCovered :
      (chain : PolicyTransport) (outcome consent : Value)
      → covers
          (cover_tool_call {R = Value} {E = Unit {0}} number_of_text tool_name args live_context
            outcome consent
            (live_setting number_of_text debug_ref fetch config chain)
            (some new_store)).1
        ≡ true
      → IsCovered
          (covered_call number_of_text debug_ref fetch config chain tool_name args outcome consent
            new_store).1
  unfolding covered_call
  covered_call-IsCovered chain outcome consent =
      cover_tool_call-IsCovered Value Unit number_of_text tool_name args live_context outcome
        consent (live_setting number_of_text debug_ref fetch config chain)

  -- The first run of a runner that is cleared calls the upstream with its own tool and arguments, and
  -- is answered with what the upstream returns.
  pub run_guarded-answers :
      (chain : PolicyTransport) (state : RunnerState)
      → state.store ≡ new_store
      → RunIsCleared number_of_text debug_ref fetch config chain state tool_name args
      → let r =
          run_guarded number_of_text debug_ref fetch config chain another state tool_name args
            forward u in
        (r.1 ≡ (forward tool_name args u).0) × (r.2 ≡ ok v)
  unfolding run_guarded
  run_guarded-answers chain state fresh run =
      let outcome = outcome_in number_of_text debug_ref fetch config state tool_name args in
      let consent = consent_in number_of_text debug_ref fetch config state tool_name args in
      let setting = live_setting number_of_text debug_ref fetch config chain in
      rw fresh (
        finish-answers (setting_for number_of_text tool_name args live_context outcome setting)
          (prepared number_of_text debug_ref fetch config tool_name args state.rpc).0 new_store
          (covered_call number_of_text debug_ref fetch config chain tool_name args outcome consent
            new_store).0
          (covered_call number_of_text debug_ref fetch config chain tool_name args outcome consent
            new_store).1
          (covered_call-IsCovered chain outcome consent (
            (cover_tool_call-covers_iff number_of_text tool_name args live_context outcome consent
                setting (some new_store)).1
              (run.consented, run.cleared))))
