-- ===== src/Review/Laws.antt =====
-- When a review is safe, and that every other one carries a code.
use monad_hackathon.Js.{Value}
use monad_hackathon.Prelude.{
  Bool-cases, Option, String, ap, arith, eq_iff, false, inl, inr, none, refl, some, str_eq, sym,
  to_lower, true, ◌↔◌, ◌∙◌, ◌≡◌,
}
use monad_hackathon.Review.{
  Reviewer, final_safety_review, judged, lowered, reviewed, safe, slice, text_field, text_or_empty,
}

judged_cases :
    (spoken : Option String) (text : String)
    → ((judged spoken text).verdict ≡ safe) ↔ (lowered spoken ≡ "safe")
unfolding judged
judged_cases spoken text = elim (Bool-cases (str_eq (lowered spoken) "safe")) [
  | inl same ↦ (λ h. (eq_iff (lowered spoken) "safe").0 same, λ h. simp same refl)
  | inr other ↦ (
    λ h. elim (Bool-cases (str_eq (lowered spoken) "unsafe")) [
      | inl bad ↦ cc (simp (other, bad) at h)
      | inr odd ↦ cc (simp (other, odd) at h)
    ],
    λ h. cc (sym other ∙ (eq_iff (lowered spoken) "safe").1 h),
  )
]

-- The reviewer's answer has the text "safe" for its verdict, up to case.
abbrev pub SaysSafe : Option Value → Type 0
SaysSafe none = ⊥
SaysSafe (some result) =
    (s : String) × (text_field "verdict" result ≡ some s) × (to_lower s ≡ "safe")

-- What the client answers, or where there is none the reviewer of the environment.
abbrev pub answer : Option Reviewer → Option Reviewer → Value → Option Value
answer (some review) from_env context = review context
answer none (some review) context = review context
answer none none context = none

spoken_safe :
    (spoken : Option String)
    → (lowered spoken ≡ "safe") ↔ ((s : String) × (spoken ≡ some s) × (to_lower s ≡ "safe"))
unfolding lowered
spoken_safe none = (λ h. let q : false ≡ true = (eq_iff "" "safe").1 h in cc q, λ (s, e, _). cc)
spoken_safe (some s) =
    (λ h. (s, refl, h), λ (t, e, h). let same : s ≡ t = ground (arith, e) in ap to_lower same ∙ h)

reviewed-safe_iff : (o : Option Value) → ((reviewed o).verdict ≡ safe) ↔ SaysSafe o
unfolding reviewed
reviewed-safe_iff none = (λ h. cc, λ h. absurd h)
reviewed-safe_iff (some result) =
    let (a, b) =
      judged_cases (text_field "verdict" result)
        (slice 280 (text_or_empty (text_field "reason" result))) in
    let (c, d) = spoken_safe (text_field "verdict" result) in (λ h. c (a h), λ h. b (d h))

-- A review is safe exactly when a reviewer is there, its call does not throw and it says so: with no
-- reviewer, on an error and on any other answer the review vetoes.
pub final_safety_review-safe_iff :
    (client from_env : Option Reviewer) (context : Value)
    → ((final_safety_review client from_env context).verdict ≡ safe)
      ↔ SaysSafe (answer client from_env context)
unfolding final_safety_review
final_safety_review-safe_iff (some review) from_env context = reviewed-safe_iff (review context)
final_safety_review-safe_iff none (some review) context = reviewed-safe_iff (review context)
final_safety_review-safe_iff none none context = (λ h. cc, λ h. absurd h)

judged-code :
    (spoken : Option String) (text : String)
    → ((judged spoken text).verdict ≡ safe) ↔ ((judged spoken text).error_code ≡ none)
unfolding judged
judged-code spoken text = elim (Bool-cases (str_eq (lowered spoken) "safe")) [
  | inl same ↦ (λ h. simp same refl, λ h. simp same refl)
  | inr other ↦ elim (Bool-cases (str_eq (lowered spoken) "unsafe")) [
    | inl bad ↦ (λ h. cc (simp (other, bad) at h), λ h. cc (simp (other, bad) at h))
    | inr odd ↦ (λ h. cc (simp (other, odd) at h), λ h. cc (simp (other, odd) at h))
  ]
]

reviewed-code :
    (o : Option Value) → ((reviewed o).verdict ≡ safe) ↔ ((reviewed o).error_code ≡ none)
unfolding reviewed
reviewed-code none = (λ h. cc, λ h. cc)
reviewed-code (some result) =
    judged-code (text_field "verdict" result)
      (slice 280 (text_or_empty (text_field "reason" result)))

-- A review that is not safe has the code of its veto, and a safe one has none.
pub final_safety_review-code :
    (client from_env : Option Reviewer) (context : Value)
    → ((final_safety_review client from_env context).verdict ≡ safe)
      ↔ ((final_safety_review client from_env context).error_code ≡ none)
unfolding final_safety_review
final_safety_review-code (some review) from_env context = reviewed-code (review context)
final_safety_review-code none (some review) context = reviewed-code (review context)
final_safety_review-code none none context = (λ h. cc, λ h. cc)
