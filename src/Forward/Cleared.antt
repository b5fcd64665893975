-- ===== src/Forward/Cleared.antt =====
-- When a call reaches the upstream.
use monad_hackathon.Codes.{Code, ToolClass}
use monad_hackathon.Digest.{CandidateDigest}
use monad_hackathon.Forward.{
  Clearance, Gate, Setting, Stop, ToolCall, after_review, allows, class_of, cleared, covered_names,
  digest_of, digest_text, gate_of, gate_with, is_safe, resolve_policy, stopped,
}
use monad_hackathon.Forward.Run.{
  Progress, allow_result, begin_forward, block_result, ended, finished, forward_key, launch,
  launch_keyed, progress_of,
}
use monad_hackathon.Idempotency.{
  Begun, IdempotencyStore, begin, invalid, raises, reuses, starts, waits,
}
use monad_hackathon.Js.{Value}
use monad_hackathon.Policy.{PolicySnapshot}
use monad_hackathon.Policy.Evaluate.{
  PolicyDecision, Verdict, allow, audit_allows, block, evaluate_policy,
}
use monad_hackathon.Policy.Permitted.{IsPermitted, evaluate_policy-allow_iff}
use monad_hackathon.Prelude.{
  Bool, Option, String, false, if◌then◌else◌, none, not, refl, some, sym, true, ◌↔◌, ◌∙◌, ◌≡◌,
}
use monad_hackathon.Review.{LlmReview, ReviewVerdict, final_safety_review, safe, unsafe}
use monad_hackathon.Review.Context.{build_llm_context}
use monad_hackathon.Review.Laws.{SaysSafe, answer, final_safety_review-safe_iff}
use monad_hackathon.ToolSemantics.Registry.{ToolSemantics}
use monad_hackathon.ToolSemantics.Resolver.{
  Resolution, Visible, denied, resolve_call_by_name, visible,
}

-- The call has passed the gate.
abbrev pub passes : Gate → Bool
passes (stopped stop) = false
passes (cleared c) = true

-- What the reviewer is asked about.
abbrev pub context_of : ToolCall → Setting → Visible → Option PolicySnapshot → Value
context_of call setting v p =
    build_llm_context call.tool_name v.semantics call.args
      (digest_text (digest_of v.semantics.tool_class call setting.evidence))
      (covered_names (digest_of v.semantics.tool_class call setting.evidence)) setting.evidence p

-- What it takes for a call to reach the upstream: the tool is visible, its policy is read and permits
-- the call, an audit writer that is given writes the evaluation, and the reviewer says "safe".
pub record IsCleared (number_of_text : String → Value) (call : ToolCall) (setting : Setting)
    : Type 0 where
  pub tool : Visible
  pub policy : PolicySnapshot
  pub resolved : resolve_call_by_name call.tool_name call.input_schema_hash ≡ visible tool
  pub read_policy : resolve_policy setting.source ≡ (some policy, none)
  pub permitted : IsPermitted number_of_text tool.semantics policy setting.evidence
  pub audit_passes : audit_allows setting.writer "policy_evaluated" ≡ true
  pub reviewed_safe :
      SaysSafe (answer setting.client setting.from_env (context_of call setting tool (some policy)))
  pub forwards : setting.can_forward ≡ true

pub is_safe_iff : (v : ReviewVerdict) → (is_safe v ≡ true) ↔ (v ≡ safe)
is_safe_iff safe = (λ h. refl, λ h. refl)
is_safe_iff unsafe = (λ h. cc, λ h. cc)
is_safe_iff ReviewVerdict.unavailable = (λ h. cc, λ h. cc)

allows_iff : (v : Verdict) → (allows v ≡ true) ↔ (v ≡ allow)
allows_iff allow = (λ h. refl, λ h. refl)
allows_iff block = (λ h. cc, λ h. cc)

-- A guard that stops a call.
guard_iff :
    (b : Bool) (stop : Stop) (g : Gate)
    → (passes (if not b then stopped stop else g) ≡ true) ↔ ((b ≡ true) × (passes g ≡ true))
guard_iff true stop g = (λ h. (refl, h), λ (_, h). h)
guard_iff false stop g = (λ h. cc, λ (h, _). cc)

after_review-passes_iff :
    (s : ToolSemantics) (policy : PolicyDecision) (digest : Option CandidateDigest)
    (can_forward : Bool) (review : LlmReview)
    → (passes (after_review s policy digest can_forward review) ≡ true)
      ↔ ((review.verdict ≡ safe) × (can_forward ≡ true))
unfolding after_review
after_review-passes_iff s policy digest can_forward review =
    let (a, b) = is_safe_iff review.verdict in
    let (c, d) = guard_iff (is_safe review.verdict) _ _ in
    let (e, f) = guard_iff can_forward _ _ in
    (λ h. let (x, y) = c h in (a x, (e y).0), λ (x, y). d (b x, f (y, refl)))

-- What a call is cleared by, from its resolution and its policy.
abbrev Conditions :
    (String → Value)
    → ToolCall
    → Setting
    → Resolution
    → Option PolicySnapshot × Option Code
    → Type 0
Conditions number_of_text call setting (visible v) (some q, none) =
    IsPermitted number_of_text v.semantics q setting.evidence
    × (audit_allows setting.writer "policy_evaluated" ≡ true)
    × SaysSafe (answer setting.client setting.from_env (context_of call setting v (some q)))
    × (setting.can_forward ≡ true)
Conditions number_of_text call setting (visible v) (none, none) = ⊥
Conditions number_of_text call setting (visible v) (none, some c) = ⊥
Conditions number_of_text call setting (visible v) (some q, some c) = ⊥
Conditions number_of_text call setting (denied d) source = ⊥

gate_with-passes_iff :
    (number_of_text : String → Value) (call : ToolCall) (setting : Setting) (r : Resolution)
    (source : Option PolicySnapshot × Option Code)
    → (passes (gate_with number_of_text call setting r source) ≡ true)
      ↔ Conditions number_of_text call setting r source
unfolding gate_with
gate_with-passes_iff number_of_text call setting (denied d) source = (λ h. cc, λ h. absurd h)
gate_with-passes_iff number_of_text call setting (visible v) (none, some c) =
    (λ h. cc, λ h. absurd h)
gate_with-passes_iff number_of_text call setting (visible v) (some q, some c) =
    (λ h. cc, λ h. absurd h)
gate_with-passes_iff number_of_text call setting (visible v) (none, none) = (λ h. cc, λ h. absurd h)
gate_with-passes_iff number_of_text call setting (visible v) (some q, none) =
    let policy =
      evaluate_policy number_of_text (some (visible v)) (some q) none setting.evidence
        setting.writer in
    let (a, b) = guard_iff (allows policy.decision) _ _ in
    let (c, d) = allows_iff policy.decision in
    let (e, f) = evaluate_policy-allow_iff number_of_text v q setting.evidence setting.writer in
    let (g, h) =
      after_review-passes_iff v.semantics policy
        (digest_of v.semantics.tool_class call setting.evidence) setting.can_forward
        (final_safety_review setting.client setting.from_env
          (context_of call setting v (some q))) in
    let (k, l) =
      final_safety_review-safe_iff setting.client setting.from_env
        (context_of call setting v (some q)) in
    (
      λ whole_gate.
          let (x, y) = a whole_gate in
          let (permitted, w) = e (c x) in let (s, forwards) = g y in (permitted, w, k s, forwards),
      λ (permitted, w, says, forwards). b (d (f (permitted, w)), h (l says, forwards)),
    )

IsCleared-by :
    (number_of_text : String → Value) (call : ToolCall) (setting : Setting) (r : Resolution)
    (source : Option PolicySnapshot × Option Code)
    → resolve_call_by_name call.tool_name call.input_schema_hash ≡ r
    → resolve_policy setting.source ≡ source
    → Conditions number_of_text call setting r source
    → IsCleared number_of_text call setting
IsCleared-by number_of_text call setting (denied d) source e f c = absurd c
IsCleared-by number_of_text call setting (visible v) (none, some x) e f c = absurd c
IsCleared-by number_of_text call setting (visible v) (some q, some x) e f c = absurd c
IsCleared-by number_of_text call setting (visible v) (none, none) e f c = absurd c
IsCleared-by number_of_text call setting (visible v) (some q, none) e f
      (permitted, w, says, forwards) =
    record {
      tool = v;
      policy = q;
      resolved = e;
      read_policy = f;
      permitted = permitted;
      audit_passes = w;
      reviewed_safe = says;
      forwards = forwards;
    }

gate_of-passes_iff :
    (number_of_text : String → Value) (call : ToolCall) (setting : Setting)
    → (passes (gate_of number_of_text call setting) ≡ true) ↔ IsCleared number_of_text call setting
unfolding gate_of
gate_of-passes_iff number_of_text call setting =
    let (a, b) =
      gate_with-passes_iff number_of_text call setting
        (resolve_call_by_name call.tool_name call.input_schema_hash)
        (resolve_policy setting.source) in
    (
      λ h. IsCleared-by number_of_text call setting _ _ refl refl (a h),
      λ c. b (
          rw c.resolved
            (rw c.read_policy (c.permitted, c.audit_passes, c.reviewed_safe, c.forwards))),
    )

module _ {R E : Type 0} where
  -- The call is not returned blocked.
  abbrev pub goes_on : Progress R E → Bool
  goes_on (ended (finished r)) = allows r.decision
  goes_on _ = true

  progress_of-goes_on :
      (call : ToolCall) (p : Option PolicySnapshot) (c : Clearance) (key : String) (b : Begun R E)
      → goes_on (progress_of call p c key b) ≡ true
  unfolding progress_of allow_result
  progress_of-goes_on call p c key invalid = refl
  progress_of-goes_on call p c key starts = refl
  progress_of-goes_on call p c key waits = refl
  progress_of-goes_on call p c key (reuses r) = refl
  progress_of-goes_on call p c key (raises e) = refl

  launch_keyed-goes_on :
      (call : ToolCall) (p : Option PolicySnapshot) (c : Clearance) (key : Option String)
      (store : IdempotencyStore R E)
      → goes_on (launch_keyed call p c key store).1 ≡ true
  unfolding launch_keyed
  launch_keyed-goes_on call p c none store = refl
  launch_keyed-goes_on call p c (some k) store = progress_of-goes_on call p c k (begin k store).1

  launch-goes_on :
      (call : ToolCall) (p : Option PolicySnapshot) (k : Option ToolClass) (gate : Gate)
      (store : Option (IdempotencyStore R E))
      → goes_on (launch call p k gate store).1 ≡ passes gate
  unfolding launch block_result
  launch-goes_on call p k (stopped stop) store = refl
  launch-goes_on call p k (cleared c) none = refl
  launch-goes_on call p k (cleared c) (some store) =
      launch_keyed-goes_on call p c (forward_key call c) store

  -- A guarded call is not blocked exactly when its tool is visible, its policy was read and permits
  -- it, an audit writer, if one is given, writes the evaluation, the reviewer says "safe" and there is
  -- a function to forward with: neither the reviewer nor the store can widen what the policy allows.
  pub begin_forward-goes_on_iff :
      (number_of_text : String → Value) (call : ToolCall) (setting : Setting)
      (store : Option (IdempotencyStore R E))
      → (goes_on (begin_forward number_of_text call setting store).1 ≡ true)
        ↔ IsCleared number_of_text call setting
  unfolding begin_forward
  begin_forward-goes_on_iff number_of_text call setting store =
      let same =
        launch-goes_on call (resolve_policy setting.source).0
          (class_of (resolve_call_by_name call.tool_name call.input_schema_hash))
          (gate_of number_of_text call setting) store in
      let (a, b) = gate_of-passes_iff number_of_text call setting in
      (λ h. a (sym same ∙ h), λ c. same ∙ b c)
