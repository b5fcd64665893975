-- ===== src/Proxy/Interceptor/Kept.antt =====
-- What a call changes of the interceptor, where there is no guarded pipeline.
use monad_hackathon.Codes.{ToolClass}
use monad_hackathon.Js.{Fields, Value}
use monad_hackathon.Prelude.{
  Bool-cases, Option, String, arith, inl, inr, none, refl, some, ℕ, ◌∙◌, ◌≡◌,
}
use monad_hackathon.Proxy.Interceptor.{
  CallInterceptor, GuardedRunner, InterceptOutcome, after_call, block, forward, handle_outcome,
  handle_upstream_call, meta, run_forward,
}
use monad_hackathon.Proxy.Upstream.{Outcome, Sdk, UpstreamClient, call_tool, returned, threw}

-- Two states of the interceptor with the same connection and the same cached tools/list, the second
-- without a pipeline.
pub record Kept (c d : CallInterceptor) : Type 0 where
  pub unguarded : d.guarded ≡ none
  pub state : d.upstream.state ≡ c.upstream.state
  pub descriptors : d.upstream.tool_descriptors ≡ c.upstream.tool_descriptors
  pub names : d.upstream.tool_names ≡ c.upstream.tool_names

module _ (uuid now_iso : ℕ → String) (sdk : Sdk) where
  call_tool_kept :
      (name : String) (args : Fields) (u : UpstreamClient)
      → ((call_tool sdk name args u).0.state ≡ u.state)
        × ((call_tool sdk name args u).0.tool_descriptors ≡ u.tool_descriptors)
        × ((call_tool sdk name args u).0.tool_names ≡ u.tool_names)
  unfolding call_tool
  call_tool_kept name args u = (ground arith, ground arith, ground arith)

  after_call-Kept :
      (name id : String) (class : ToolClass) (c : CallInterceptor) (answer : Outcome Value)
      → c.guarded ≡ none
      → Kept c (after_call uuid now_iso sdk name id class c answer).0
  unfolding after_call
  after_call-Kept name id class c (returned value) g = record {
    unguarded = g;
    state = refl;
    descriptors = refl;
    names = refl;
  }
  after_call-Kept name id class c threw g = record {
    unguarded = g;
    state = refl;
    descriptors = refl;
    names = refl;
  }

  run_forward-Kept :
      (guarded : Option GuardedRunner) (name id : String) (class : ToolClass) (args : Fields)
      (c : CallInterceptor)
      → guarded ≡ none
      → c.guarded ≡ none
      → Kept c (run_forward uuid now_iso sdk guarded name id class args c).0
  unfolding run_forward
  run_forward-Kept (some guard) name id class args c e g = cc
  run_forward-Kept none name id class args c e g =
      let (s, d, n) = call_tool_kept name args c.upstream in
      let (upstream, answer) = call_tool sdk name args c.upstream in
      let k = after_call-Kept name id class (record c { upstream = upstream }) answer g in
      record {
        unguarded = k.unguarded;
        state = k.state ∙ s;
        descriptors = k.descriptors ∙ d;
        names = k.names ∙ n;
      }

  handle_outcome-Kept :
      (name id : String) (args : Fields) (c : CallInterceptor) (outcome : InterceptOutcome)
      → c.guarded ≡ none
      → Kept c (handle_outcome uuid now_iso sdk name id args c outcome).0
  unfolding handle_outcome
  handle_outcome-Kept name id args c (meta tool) g = record {
    unguarded = g;
    state = refl;
    descriptors = refl;
    names = refl;
  }
  handle_outcome-Kept name id args c (block tool error) g = record {
    unguarded = g;
    state = refl;
    descriptors = refl;
    names = refl;
  }
  handle_outcome-Kept name id args c (forward tool class) g =
      elim (Bool-cases c.upstream.state.connected) [
        | inr off ↦
            simp off (record { unguarded = g; state = refl; descriptors = refl; names = refl })
        | inl on ↦ simp on (run_forward-Kept c.guarded name id class args c g g)
      ]

  pub handle_upstream_call-Kept :
      (sha256 : String → String) (record_of : Value → Option Fields) (id name : String)
      (raw_args : Value) (c : CallInterceptor)
      → c.guarded ≡ none
      → Kept c (handle_upstream_call uuid now_iso sdk sha256 record_of id name raw_args c).0
  unfolding handle_upstream_call
  handle_upstream_call-Kept sha256 record_of id name raw_args c g =
      let k = handle_outcome-Kept name id _ _ _ g in
      record {
        unguarded = k.unguarded;
        state = k.state;
        descriptors = k.descriptors;
        names = k.names;
      }
