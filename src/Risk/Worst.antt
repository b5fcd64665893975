-- ===== src/Risk/Worst.antt =====
-- The first blocking finding, which decides the reason of a block.
-- Every reason of a list scores at most the first.
use Prim.Native.Nat.{max}
use monad_hackathon.Prelude.{
  Bool-cases, In, List, [], ap, arith, false, filter, inl, inr, ltb, refl, sym, true, ◌↔◌, ◌∙◌, ◌∷◌,
  ◌≡◌, ◌≤◌, ◌⊎◌,
}
use monad_hackathon.Risk.{
  Level, RiskReason, critical, high, insert_reason, is_blocking, level_of, level_score, low,
  max_score, medium, sort_reasons, summarize_risk,
}

abbrev HeadIsWorst : List RiskReason → Type 0
HeadIsWorst [] = Unit
HeadIsWorst (r ∷ rs) = max_score (r ∷ rs) ≡ level_score r.level

insert_reason-score :
    (r : RiskReason) (rs : List RiskReason)
    → max_score (insert_reason r rs) ≡ max (level_score r.level) (max_score rs)
unfolding insert_reason max_score
insert_reason-score r [] = refl
insert_reason-score r (s ∷ rs) = ground (arith, insert_reason-score r rs)

insert_reason-HeadIsWorst :
    (r : RiskReason) (rs : List RiskReason) → HeadIsWorst rs → HeadIsWorst (insert_reason r rs)
unfolding insert_reason max_score
insert_reason-HeadIsWorst r [] h = omega arith
insert_reason-HeadIsWorst r (s ∷ rs) h =
    elim (Bool-cases (ltb (level_score r.level) (level_score s.level))) [
      | inl less ↦ simp less (ground (arith, less, h, insert_reason-score r rs))
      | inr more ↦ simp more (ground (arith, more, h))
    ]

sort_reasons-score : (rs : List RiskReason) → max_score (sort_reasons rs) ≡ max_score rs
unfolding sort_reasons max_score
sort_reasons-score [] = refl
sort_reasons-score (r ∷ rs) =
    insert_reason-score r (sort_reasons rs) ∙ ap (max (level_score r.level)) (sort_reasons-score rs)

sort_reasons-HeadIsWorst : (rs : List RiskReason) → HeadIsWorst (sort_reasons rs)
unfolding sort_reasons
sort_reasons-HeadIsWorst [] = tt
sort_reasons-HeadIsWorst (r ∷ rs) =
    insert_reason-HeadIsWorst r (sort_reasons rs) (sort_reasons-HeadIsWorst rs)

blocking_score :
    (r : RiskReason)
    → ((is_blocking r ≡ true) × (70 ≤ level_score r.level))
      ⊎ ((is_blocking r ≡ false) × (level_score r.level ≤ 35))
unfolding is_blocking level_score
blocking_score r = ground arith

filtered_score :
    (rs : List RiskReason)
    → ((max_score (filter is_blocking rs) ≡ max_score rs) × (70 ≤ max_score rs))
      ⊎ ((filter is_blocking rs ≡ []) × (max_score rs ≤ 35))
unfolding max_score is_blocking
filtered_score [] = inr (refl, omega arith)
filtered_score (r ∷ rs) = elim (blocking_score r) [
  | inl (b, s) ↦ elim (filtered_score rs) [
    | inl (e, t) ↦ inl (simp b (omega (arith, e)), omega (arith, t))
    | inr (e, t) ↦ inl (simp (b, e) (omega (arith, s, t)), omega (arith, s))
  ]
  | inr (b, s) ↦ elim (filtered_score rs) [
    | inl (e, t) ↦ inl (simp b (omega (arith, e, s, t)), omega (arith, t))
    | inr (e, t) ↦ inr (simp b e, omega (arith, s, t))
  ]
]

max_score-In :
    (r : RiskReason) (rs : List RiskReason) → In r rs → level_score r.level ≤ max_score rs
unfolding max_score
max_score-In r [] i = absurd i
max_score-In r (s ∷ rs) (inl e) =
    let f : level_score r.level ≡ level_score s.level =
      ap (λ (x : RiskReason). level_score x.level) e in
    omega (arith, f)
max_score-In r (s ∷ rs) (inr i) = omega (arith, max_score-In r rs i)

level_of-level_score : (l : Level) → level_of (level_score l) ≡ l
unfolding level_of level_score
level_of-level_score low = refl
level_of-level_score medium = refl
level_of-level_score high = refl
level_of-level_score critical = refl

first_finding :
    (rs : List RiskReason) (b : RiskReason) (bs : List RiskReason)
    → sort_reasons rs ≡ b ∷ bs
    → max_score rs ≡ level_score b.level
first_finding rs b bs e =
    let w : HeadIsWorst (b ∷ bs) = rw e at (sort_reasons-HeadIsWorst rs) in
    sym (sort_reasons-score rs) ∙ ap max_score e ∙ w

-- Where something blocks, the first blocking finding has the summary's score and level, and no reason
-- scores more.
pub summarize_risk-first :
    (rs : List RiskReason) (b : RiskReason) (bs : List RiskReason)
    → (summarize_risk rs).blocking_findings ≡ b ∷ bs
    → ((summarize_risk rs).score ≡ level_score b.level)
      × ((summarize_risk rs).level ≡ b.level)
      × ((r : RiskReason) → In r rs → level_score r.level ≤ (summarize_risk rs).score)
unfolding summarize_risk sort_reasons max_score
summarize_risk-first rs b bs e =
    let f = first_finding (filter is_blocking rs) b bs e in
    elim (filtered_score rs) [
      | inl (same, _) ↦
          let g : max_score rs ≡ level_score b.level = sym same ∙ f in
          (g, ap level_of g ∙ level_of-level_score b.level, λ r. max_score-In r rs)
      | inr (nothing, _) ↦ cc (sym e ∙ ap sort_reasons nothing)
    ]

-- Nothing blocks exactly when the score is at most 35, that is when every reason is of low or medium
-- level.
pub summarize_risk-blocks_iff :
    (rs : List RiskReason)
    → ((summarize_risk rs).blocking_findings ≡ []) ↔ ((summarize_risk rs).score ≤ 35)
unfolding summarize_risk sort_reasons max_score
summarize_risk-blocks_iff rs = elim (filtered_score rs) [
  | inl (same, most) ↦ (
    λ e.
        let z : max_score (sort_reasons (filter is_blocking rs)) ≡ 0 = ap max_score e in
        omega (arith, z, same, most, sort_reasons-score (filter is_blocking rs)),
    λ small. absurd (omega (arith, small, most)),
  )
  | inr (nothing, small) ↦ (λ e. small, λ h. ap sort_reasons nothing)
]
