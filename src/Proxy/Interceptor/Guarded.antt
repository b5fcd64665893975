-- ===== src/Proxy/Interceptor/Guarded.antt =====
-- What a call does where the interceptor has a guarded pipeline.
use monad_hackathon.Codes.{ToolClass, missing_required_evidence, upstream_error}
use monad_hackathon.Js.{Fields, Value}
use monad_hackathon.Prelude.{
  Bool-cases, Option, String, ap, inl, inr, none, refl, some, ℕ, ◌∙◌, ◌≡◌, ◌⊎◌,
}
use monad_hackathon.Proxy.Interceptor.{
  CallInterceptor, GuardedReply, GuardedRunner, InterceptOutcome, InterceptResult, after_guard,
  crashed, failed, forwarded, handle_outcome, handle_upstream_call, ok, plan, refused, run_forward,
}
use monad_hackathon.Proxy.Schemas.{sanitize_to_safe_error}
use monad_hackathon.Proxy.Upstream.{Sdk, call_tool}

abbrev pub IsRefused : InterceptResult → Type 0
IsRefused (InterceptResult.meta a b) = ⊥
IsRefused (forwarded a b d) = ⊥
IsRefused (refused e b) = Unit

-- The result that the runner's reply has for the host.
unfoldable pub result_for : String → String → GuardedReply → InterceptResult
result_for name id (ok value) = forwarded name value id
result_for name id (failed error) = refused error id
result_for name id (GuardedReply.skipped reason) =
    refused (sanitize_to_safe_error missing_required_evidence) id
result_for name id crashed = refused (sanitize_to_safe_error upstream_error) id

-- The call has been refused and nothing was sent, or the runner has made it and the host has its reply.
abbrev pub Outcomes :
    Sdk
    → GuardedRunner
    → String
    → String
    → Fields
    → CallInterceptor
    → CallInterceptor × InterceptResult
    → Type 0
Outcomes sdk guard name id args c r =
    ((r.0.upstream ≡ c.upstream) × IsRefused r.1)
    ⊎ ((r.0.upstream ≡ (guard name args (call_tool sdk) c.upstream).0)
        × (r.1 ≡ result_for name id (guard name args (call_tool sdk) c.upstream).1))

module _ (uuid now_iso : ℕ → String) (sdk : Sdk) (guard : GuardedRunner) (name id : String) where
  after_guard-result :
      (class : ToolClass) (c : CallInterceptor) (reply : GuardedReply)
      → ((after_guard uuid now_iso sdk name id class c reply).0.upstream ≡ c.upstream)
        × ((after_guard uuid now_iso sdk name id class c reply).1 ≡ result_for name id reply)
  unfolding after_guard result_for
  after_guard-result class c (ok value) = (refl, refl)
  after_guard-result class c (failed error) = (refl, refl)
  after_guard-result class c (GuardedReply.skipped reason) = (refl, refl)
  after_guard-result class c crashed = (refl, refl)

  run_forward-Outcomes :
      (g : Option GuardedRunner) (class : ToolClass) (args : Fields) (c : CallInterceptor)
      → g ≡ some guard
      → Outcomes sdk guard name id args c (run_forward uuid now_iso sdk g name id class args c)
  unfolding run_forward
  run_forward-Outcomes none class args c e = cc e
  run_forward-Outcomes (some other) class args c e =
      let same : other ≡ guard = cc e in
      let step = other name args (call_tool sdk) c.upstream in
      let (a, b) = after_guard-result class (record c { upstream = step.0 }) step.1 in
      inr (
        a ∙ ap (λ (f : GuardedRunner). (f name args (call_tool sdk) c.upstream).0) same,
        b
            ∙ ap
                (λ (f : GuardedRunner).
                  result_for name id (f name args (call_tool sdk) c.upstream).1)
                same,
      )

  handle_outcome-Outcomes :
      (args : Fields) (c : CallInterceptor) (outcome : InterceptOutcome)
      → c.guarded ≡ some guard
      → Outcomes sdk guard name id args c (handle_outcome uuid now_iso sdk name id args c outcome)
  unfolding handle_outcome
  handle_outcome-Outcomes args c (InterceptOutcome.meta tool) e = inl (refl, tt)
  handle_outcome-Outcomes args c (InterceptOutcome.block tool error) e = inl (refl, tt)
  handle_outcome-Outcomes args c (InterceptOutcome.forward tool class) e =
      elim (Bool-cases c.upstream.state.connected) [
        | inr off ↦ simp off (inl (refl, tt))
        | inl on ↦ simp on (run_forward-Outcomes c.guarded class args c e)
      ]

  -- With a guarded pipeline a call is refused and the upstream is sent nothing, or the runner makes
  -- it: the upstream is then as the runner leaves it, and the host is told what the runner replies.
  pub handle_upstream_call-Outcomes :
      (sha256 : String → String) (record_of : Value → Option Fields) (raw_args : Value)
      (c : CallInterceptor)
      → c.guarded ≡ some guard
      → Outcomes sdk guard name id
          (plan sha256 record_of c name raw_args).1
          c
          (handle_upstream_call uuid now_iso sdk sha256 record_of id name raw_args c)
  unfolding handle_upstream_call
  handle_upstream_call-Outcomes sha256 record_of raw_args c e =
      handle_outcome-Outcomes (plan sha256 record_of c name raw_args).1 _
        (plan sha256 record_of c name raw_args).0 e
