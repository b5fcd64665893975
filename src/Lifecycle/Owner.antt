-- ===== src/Lifecycle/Owner.antt =====
-- Who may change a policy, and what else it takes.
use monad_hackathon.Codes.{Code}
use monad_hackathon.Consent.{ConsentCheck, check_consent}
use monad_hackathon.Digest.{CandidateDigest}
use monad_hackathon.Forward.{is_safe}
use monad_hackathon.Forward.Cleared.{is_safe_iff}
use monad_hackathon.Idempotency.{IdempotencyStore}
use monad_hackathon.Js.{Value, truthy}
use monad_hackathon.Lifecycle.{
  UpdateGate, UpdateProgress, UpdateRequest, authorize, bootstrap_check, consent_gate,
  cover_policy_update, launch_update, owner_check, review_gate, simulated_gate, simulation_code,
  update_begun, update_blocked, update_cleared, update_context, update_digest, update_gate,
  update_skipped, update_stopped,
}
use monad_hackathon.Policy.{PolicySnapshot}
use monad_hackathon.Policy.Checks.{status_is}
use monad_hackathon.Prelude.{
  Bool, Bool-cases, Option, String, eq_iff, false, inl, inr, none, refl, some, str_eq, sym,
  to_lower, true, ◌∙◌, ◌≡◌, ◌≢◌, ◌⊎◌,
}
use monad_hackathon.Review.{LlmReview, final_safety_review, safe}
use monad_hackathon.Review.Laws.{SaysSafe, answer, final_safety_review-safe_iff}

-- An update by the owner of the policy, or the first policy of a requester.
abbrev pub IsAuthorized : UpdateRequest → Type 0
IsAuthorized r =
    ((r.kind ≡ "update")
      × ((p : PolicySnapshot) × (r.current_policy ≡ some p)
          × (r.requester_address ≢ "")
          × (to_lower r.requester_address ≡ to_lower p.source.owner_address)))
    ⊎ ((r.kind ≡ "bootstrap") × (r.current_policy ≡ none) × (r.requester_address ≢ ""))

owner_check_none :
    (requester : String) (current : Option PolicySnapshot)
    → owner_check requester current ≡ none
    → (p : PolicySnapshot) × (current ≡ some p)
      × (requester ≢ "")
      × (to_lower requester ≡ to_lower p.source.owner_address)
unfolding owner_check
owner_check_none requester none h = cc h
owner_check_none requester (some p) h = elim (Bool-cases (str_eq requester "")) [
  | inl empty ↦ cc (simp empty at h)
  | inr filled ↦ elim (Bool-cases (str_eq (to_lower requester) (to_lower p.source.owner_address))) [
    | inl same ↦ (p, refl, λ e. cc (sym filled ∙ (eq_iff requester "").1 e), (eq_iff _ _).0 same)
    | inr other ↦ cc (simp (filled, other) at h)
  ]
]

bootstrap_check_none :
    (requester : String) (current : Option PolicySnapshot)
    → bootstrap_check requester current ≡ none
    → (current ≡ none) × (requester ≢ "")
unfolding bootstrap_check
bootstrap_check_none requester (some p) h = cc h
bootstrap_check_none requester none h = elim (Bool-cases (str_eq requester "")) [
  | inl empty ↦ cc (simp empty at h)
  | inr filled ↦ (refl, λ e. cc (sym filled ∙ (eq_iff requester "").1 e))
]

authorize_none :
    (r : UpdateRequest)
    → authorize r.kind r.requester_address r.current_policy ≡ none
    → IsAuthorized r
unfolding authorize
authorize_none r h = elim (Bool-cases (str_eq r.kind "update")) [
  | inl updates ↦ inl (
    (eq_iff r.kind "update").0 updates,
    owner_check_none r.requester_address r.current_policy (simp updates at h),
  )
  | inr other ↦ elim (Bool-cases (str_eq r.kind "bootstrap")) [
    | inl first ↦
        let (missing_policy, filled) =
          bootstrap_check_none r.requester_address r.current_policy (simp (other, first) at h) in
        inr ((eq_iff r.kind "bootstrap").0 first, missing_policy, filled)
    | inr neither ↦ cc (simp (other, neither) at h)
  ]
]

abbrev passed : UpdateGate → Bool
passed (update_cleared d review) = true
passed _ = false

simulated_gate-passed :
    (o : Option Code) (g : UpdateGate)
    → passed (simulated_gate o g) ≡ true
    → (o ≡ none) × (passed g ≡ true)
unfolding simulated_gate
simulated_gate-passed none g h = (refl, h)
simulated_gate-passed (some c) g h = cc h

consent_gate-passed :
    (check : ConsentCheck) (g : UpdateGate)
    → passed (consent_gate check g) ≡ true
    → (check.ok ≡ true) × (passed g ≡ true)
unfolding consent_gate
consent_gate-passed check g h = elim (Bool-cases check.ok) [
  | inl complete ↦ (complete, simp complete at h)
  | inr lacking ↦ cc (simp lacking at h)
]

simulation_code_none :
    (outcome : Value) → simulation_code outcome ≡ none → status_is "success" outcome ≡ true
unfolding simulation_code
simulation_code_none outcome h = elim (Bool-cases (status_is "success" outcome)) [
  | inl went ↦ went
  | inr bad ↦ elim (Bool-cases (truthy outcome)) [
    | inl there ↦ elim (Bool-cases (status_is "failed" outcome)) [
      | inl lost ↦ cc (simp (bad, there, lost) at h)
      | inr odd ↦ cc (simp (bad, there, odd) at h)
    ]
    | inr gone ↦ elim (Bool-cases (status_is "failed" outcome)) [
      | inl lost ↦ cc (simp (bad, gone, lost) at h)
      | inr odd ↦ cc (simp (bad, gone, odd) at h)
    ]
  ]
]

review_gate-passed :
    (can_forward : Bool) (d : CandidateDigest) (review : LlmReview)
    → passed (review_gate can_forward d review) ≡ true
    → (review.verdict ≡ safe) × (can_forward ≡ true)
unfolding review_gate
review_gate-passed can_forward d review h = elim (Bool-cases (is_safe review.verdict)) [
  | inl said ↦ elim (Bool-cases can_forward) [
    | inl can ↦ ((is_safe_iff review.verdict).0 said, can)
    | inr cannot ↦ cc (simp (said, cannot) at h)
  ]
  | inr vetoed ↦ cc (simp vetoed at h)
]

update_gate-passed :
    (r : UpdateRequest)
    → passed (update_gate r) ≡ true
    → IsAuthorized r
      × ((check_consent r.consent).ok ≡ true)
      × (status_is "success" r.outcome ≡ true)
      × SaysSafe (answer r.client r.from_env (update_context r))
      × (r.can_forward ≡ true)
unfolding update_gate
update_gate-passed r h =
    let (a, h1) = simulated_gate-passed _ _ h in
    let (b, h2) = consent_gate-passed _ _ h1 in
    let (c, h3) = simulated_gate-passed _ _ h2 in
    let (d, e) =
      review_gate-passed r.can_forward (update_digest r)
        (final_safety_review r.client r.from_env (update_context r)) h3 in
    (
      authorize_none r a,
      b,
      simulation_code_none r.outcome c,
      (final_safety_review-safe_iff r.client r.from_env (update_context r)).0 d,
      e,
    )

module _ {R E : Type 0} where
  -- The forward of an update has begun.
  abbrev pub begins_update : UpdateProgress R E → Bool
  begins_update (update_begun d review b) = true
  begins_update (update_stopped g) = false

  launch_update-passed :
      (r : UpdateRequest) (g : UpdateGate) (store : Option (IdempotencyStore R E))
      → begins_update (launch_update r g store).1 ≡ passed g
  unfolding launch_update
  launch_update-passed r (update_cleared d review) none = refl
  launch_update-passed r (update_cleared d review) (some s) = refl
  launch_update-passed r (update_blocked c) store = refl
  launch_update-passed r (update_skipped names) store = refl

  -- The forward of a policy change begins only for an update by the owner of the policy or for the
  -- first policy of a requester, and in each case only with a complete consent, a successful simulation,
  -- a reviewer that says "safe" and a function to forward with.
  pub cover_policy_update-IsAuthorized :
      (r : UpdateRequest) (store : Option (IdempotencyStore R E))
      → begins_update (cover_policy_update r store).1 ≡ true
      → IsAuthorized r
        × ((check_consent r.consent).ok ≡ true)
        × (status_is "success" r.outcome ≡ true)
        × SaysSafe (answer r.client r.from_env (update_context r))
        × (r.can_forward ≡ true)
  unfolding cover_policy_update
  cover_policy_update-IsAuthorized r store h =
      update_gate-passed r (sym (launch_update-passed r (update_gate r) store) ∙ h)
