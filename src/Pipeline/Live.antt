-- ===== src/Pipeline/Live.antt =====
-- The interceptor with the pipeline: from a host's call to the contract's lists.
use monad_hackathon.Codes.{Code, transaction_execute}
use monad_hackathon.Coverage.{lower, recipient_of, semantics_for, setting_for}
use monad_hackathon.Coverage.Consented.{IsCleared-recipient}
use monad_hackathon.Forward.{resolve_policy, source_read}
use monad_hackathon.Idempotency.{Settlement}
use monad_hackathon.Js.{Fields, Value, truthy}
use monad_hackathon.Pipeline.{RunnerConfig, RunnerState, live_context, live_setting, runner_in}
use monad_hackathon.Pipeline.Cleared.{IsRefusal, RunIsCleared, outcome_in, run_guarded-cleared}
use monad_hackathon.Policy.{PolicySnapshot}
use monad_hackathon.Policy.Checks.{includes_address}
use monad_hackathon.Prelude.{
  Option, String, ap, inl, inr, map, none, some, some_inj, sym, to_lower, true, ℕ, ◌∙◌, ◌≡◌, ◌⊎◌,
}
use monad_hackathon.Proxy.Interceptor.{
  CallInterceptor, GuardedReply, crashed, failed, handle_upstream_call, ok, plan,
}
use monad_hackathon.Proxy.Interceptor.Guarded.{IsRefused, handle_upstream_call-Outcomes, result_for}
use monad_hackathon.Proxy.Upstream.{Sdk, call_tool}
use monad_hackathon.Rpc.{Fetched, Posted}
use monad_hackathon.Source.Fetch.{Answers, PolicyTransport, read_answers}
use monad_hackathon.Source.Fetch.Read.{IsRead, fetch_policy_snapshot-IsRead}
use monad_hackathon.Source.Fetch.Stages.{HasCode, OnTestnet}
use monad_hackathon.Source.Snapshot.Validate.{Checked}
use monad_hackathon.ToolSemantics.Registry.{ToolSemantics}

result_for-IsRefused :
    (name id : String) (reply : GuardedReply)
    → IsRefusal reply
    → IsRefused (result_for name id reply)
unfolding result_for
result_for-IsRefused name id (ok v) h = absurd h
result_for-IsRefused name id (failed e) h = tt
result_for-IsRefused name id (GuardedReply.skipped r) h = tt
result_for-IsRefused name id crashed h = absurd h

resolve_policy-read :
    (read : Checked) (p : PolicySnapshot)
    → resolve_policy (source_read read) ≡ (some p, none)
    → read ≡ inl p
unfolding resolve_policy
resolve_policy-read (inl q) p h =
    ap inl (some_inj (ap (λ (x : Option PolicySnapshot × Option Code). x.0) h))
resolve_policy-read (inr c) p h =
    let e : ◌≡◌ {A = Option PolicySnapshot} none (some p) =
      ap (λ (x : Option PolicySnapshot × Option Code). x.0) h in
    cc e

module _ (number_of_text : String → Value) (debug_ref : Code → String) (fetch : Posted → Fetched)
    (config : RunnerConfig) (chain : PolicyTransport) (another : Settlement Value (Unit {0}))
    (state : RunnerState) where
  -- The contract behind a cleared run: its snapshot is a valid reading of its answers.
  pub run-IsRead :
      (tool_name : String) (args : Fields)
      → (s : RunIsCleared number_of_text debug_ref fetch config chain state tool_name args)
      → IsRead config.options chain s.cleared.policy
  unfolding live_setting setting_for
  run-IsRead tool_name args s =
      fetch_policy_snapshot-IsRead number_of_text config.address config.options chain
        s.cleared.policy (resolve_policy-read _ s.cleared.policy s.cleared.read_policy)

  module _ (uuid now_iso : ℕ → String) (sdk : Sdk) (sha256 : String → String)
      (record_of : Value → Option Fields) (id name : String) (raw_args : Value)
      (c : CallInterceptor)
      (live : c.guarded
        ≡ some (runner_in number_of_text debug_ref fetch config chain another state)) where
    -- With the pipeline as its runner, the interceptor's call reaches the upstream, or is answered with
    -- anything but a refusal, only if its run is cleared: the consent is complete where the tool changes something,
    -- and the policy that the contract answers, the reviewer and the gate let the call pass.
    pub live_call-cleared :
        let args = (plan sha256 record_of c name raw_args).1 in
        let r = handle_upstream_call uuid now_iso sdk sha256 record_of id name raw_args c in
        RunIsCleared number_of_text debug_ref fetch config chain state name args
        ⊎ ((r.0.upstream ≡ c.upstream) × IsRefused r.1)
    unfolding runner_in
    live_call-cleared =
        let args = (plan sha256 record_of c name raw_args).1 in
        elim (handle_upstream_call-Outcomes uuid now_iso sdk
          (runner_in number_of_text debug_ref fetch config chain another state) name id sha256
          record_of raw_args c live) [
            | inl refusal ↦ inr refusal
            | inr (up, result) ↦
                elim (run_guarded-cleared number_of_text debug_ref fetch config chain another state
                  name args (call_tool sdk) c.upstream) [
                    | inl s ↦ inl s
                    | inr (same, refusal) ↦
                        inr (up ∙ same, rw result (result_for-IsRefused name id _ refusal))
                  ]
          ]

    -- With the pipeline as the interceptor's runner, where a call of the class of transactions names a
    -- recipient and is answered with anything but a refusal, the recipient that the evidence takes from
    -- its arguments is one of the contract's own: the RPC is on Monad Testnet, the contract has code,
    -- every read was answered, and the recipient, in lower case, is an entry of the contract's list of
    -- recipients in lower case.
    pub live_call-recipient :
        (s : ToolSemantics)
        → semantics_for name ≡ some s
        → s.tool_class ≡ transaction_execute
        → truthy (recipient_of (plan sha256 record_of c name raw_args).1) ≡ true
        → ¬ IsRefused (handle_upstream_call uuid now_iso sdk sha256 record_of id name raw_args c).1
        → OnTestnet chain
          × HasCode chain
          × (a : Answers) × (read_answers chain ≡ some a)
          × (includes_address
                (map to_lower a.recipients)
                (lower (recipient_of (plan sha256 record_of c name raw_args).1))
              ≡ true)
    live_call-recipient s e k given answered = elim live_call-cleared [
      | inr (same, refusal) ↦ absurd (answered refusal)
      | inl run ↦
          let args = (plan sha256 record_of c name raw_args).1 in
          let r = run-IsRead name args run in
          let on_list : includes_address run.cleared.policy.allowed_recipients
                (lower (recipient_of args))
              ≡ true =
            IsCleared-recipient number_of_text name args live_context
              (outcome_in number_of_text debug_ref fetch config state name args)
              (live_setting number_of_text debug_ref fetch config chain) s e k given run.cleared in
          (r.on_testnet, r.has_code, r.answers, r.read, rw (sym r.of_answers.recipients) on_list)
    ]
