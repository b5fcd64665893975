-- ===== src/Pipeline/Cleared.antt =====
-- What it takes for a run of the pipeline to reach the upstream.
use monad_hackathon.Codes.{Code}
use monad_hackathon.Consent.{check_consent}
use monad_hackathon.Coverage.{
  Covering, call_for, guarded, needs_consent, semantics_for, setting_for, skipped,
}
use monad_hackathon.Coverage.Consented.{cover_tool_call-covers_iff, covers}
use monad_hackathon.Forward.{Setting}
use monad_hackathon.Forward.Cleared.{IsCleared, goes_on}
use monad_hackathon.Forward.Run.{
  ForwardOutcome, awaits_other, calls_upstream, end_forward, ended, finished, thrown,
}
use monad_hackathon.Idempotency.{IdempotencyStore, Settlement}
use monad_hackathon.Js.{Fields, Value}
use monad_hackathon.Pipeline.{
  RunnerConfig, RunnerState, covered_call, finish, live_context, live_setting, prepared, reply_of,
  run_guarded, settle_call,
}
use monad_hackathon.Prelude.{
  Bool-cases, Option, String, false, inl, inr, refl, some, true, ◌≡◌, ◌⊎◌,
}
use monad_hackathon.Proxy.Interceptor.{GuardedReply, crashed, failed, ok}
use monad_hackathon.Proxy.Upstream.{Outcome, UpstreamClient}
use monad_hackathon.Rpc.{Fetched, Posted, Transport}
use monad_hackathon.Source.Fetch.{PolicyTransport}

-- The reply is an error or a skip.
abbrev pub IsRefusal : GuardedReply → Type 0
IsRefusal (failed e) = Unit
IsRefusal (GuardedReply.skipped r) = Unit
IsRefusal (ok v) = ⊥
IsRefusal crashed = ⊥

module _ (number_of_text : String → Value) (debug_ref : Code → String) (fetch : Posted → Fetched)
    (config : RunnerConfig) where
  IsRefusal-of :
      (o : ForwardOutcome Value (Unit {0}))
      → goes_on (ended o) ≡ false
      → IsRefusal (reply_of number_of_text debug_ref fetch config o)
  unfolding reply_of
  IsRefusal-of (thrown e) h = cc h
  IsRefusal-of (finished r) h = rw h tt

  module _ (forward : String → Fields → UpstreamClient → UpstreamClient × Outcome Value)
      (tool_name : String) (args : Fields) (another : Settlement Value (Unit {0}))
      (setting : Setting) (rpc : Transport) (store : IdempotencyStore Value (Unit {0}))
      (after : Option (IdempotencyStore Value (Unit {0}))) (u : UpstreamClient) where
    finish-refuses :
        (c : Covering Value (Unit {0}))
        → covers c ≡ false
        → let r =
            finish number_of_text debug_ref fetch config forward tool_name args another setting rpc
              store
              (after, c)
              u in
          (r.1 ≡ u) × IsRefusal r.2
    unfolding finish settle_call end_forward
    finish-refuses (skipped names) h = (refl, tt)
    finish-refuses (guarded (ended o)) h = (refl, IsRefusal-of o h)
    finish-refuses (guarded (calls_upstream p)) h = cc h
    finish-refuses (guarded (awaits_other p)) h = cc h

  -- The outcome of the simulation, and the consent, that a run goes by.
  abbrev pub outcome_in : RunnerState → String → Fields → Value
  outcome_in state tool_name args =
      (prepared number_of_text debug_ref fetch config tool_name args state.rpc).1.0

  abbrev pub consent_in : RunnerState → String → Fields → Value
  consent_in state tool_name args =
      (prepared number_of_text debug_ref fetch config tool_name args state.rpc).1.1

  -- The consent of a run is complete, where its tool's class changes something, and its call is
  -- cleared with the policy that the contract answers.
  pub record RunIsCleared (chain : PolicyTransport) (state : RunnerState) (tool_name : String)
      (args : Fields) : Type 0 where
    pub consented :
        needs_consent (semantics_for tool_name) ≡ true
        → (check_consent (consent_in state tool_name args)).ok ≡ true
    pub cleared : IsCleared number_of_text (call_for tool_name args) (
        setting_for number_of_text tool_name args live_context
          (outcome_in state tool_name args)
          (live_setting number_of_text debug_ref fetch config chain))

  module _ (chain : PolicyTransport) (another : Settlement Value (Unit {0})) (state : RunnerState)
      (tool_name : String) (args : Fields)
      (forward : String → Fields → UpstreamClient → UpstreamClient × Outcome Value)
      (u : UpstreamClient) where
    covered_call-IsCleared :
        covers
            (covered_call number_of_text debug_ref fetch config chain tool_name args
              (outcome_in state tool_name args)
              (consent_in state tool_name args)
              state.store).1
          ≡ true
        → RunIsCleared chain state tool_name args
    unfolding covered_call
    covered_call-IsCleared h =
        let (a, b) =
          (cover_tool_call-covers_iff number_of_text tool_name args live_context
              (outcome_in state tool_name args) (consent_in state tool_name args)
              (live_setting number_of_text debug_ref fetch config chain) (some state.store)).0
            h in
        record { consented = a; cleared = b }

    -- A run whose consent is not complete, or whose call the policy, the reviewer or the gate before
    -- them does not clear, sends the upstream nothing and is refused.
    pub run_guarded-cleared :
        let r =
          run_guarded number_of_text debug_ref fetch config chain another state tool_name args
            forward u in
        RunIsCleared chain state tool_name args ⊎ ((r.1 ≡ u) × IsRefusal r.2)
    unfolding run_guarded
    run_guarded-cleared =
        let outcome = outcome_in state tool_name args in
        let begun =
          covered_call number_of_text debug_ref fetch config chain tool_name args outcome
            (consent_in state tool_name args) state.store in
        elim (Bool-cases (covers begun.1)) [
          | inl on ↦ inl (covered_call-IsCleared on)
          | inr off ↦ inr (
              finish-refuses forward tool_name args another
                (setting_for number_of_text tool_name args live_context outcome
                  (live_setting number_of_text debug_ref fetch config chain))
                (prepared number_of_text debug_ref fetch config tool_name args state.rpc).0
                state.store begun.0 u begun.1 off)
        ]
