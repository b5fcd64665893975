-- ===== src/Policy/Blocking.antt =====
-- Every reason that a check adds blocks.
use monad_hackathon.Codes.{Code, code_text, policy_unlimited_approval_blocked}
use monad_hackathon.Js.{Fields, Value, get}
use monad_hackathon.Policy.{PolicySnapshot, SpenderLimit}
use monad_hackathon.Policy.Checks.{
  add_if, amount_of, approval_reasons, checks, find_limit, is_approval, is_unlimited, joined,
  limit_reasons, missing_reasons, reason, simulation_reasons, without_codes,
}
use monad_hackathon.Prelude.{
  Bool, Bool-cases, List, Option, String, [], all, arith, false, filter, inl, inr, ltb, none, refl,
  some, true, ℕ, ◌++◌, ◌↔◌, ◌∷◌, ◌≡◌, ◌≢◌,
}
use monad_hackathon.Risk.{
  RiskReason, critical, high, insert_reason, is_blocking, level_score, sort_reasons, summarize_risk,
}
use monad_hackathon.ToolSemantics.Registry.{ToolSemantics}

-- Every reason of a list blocks.
pub AllBlock : List RiskReason → Type 0
AllBlock rs = all is_blocking rs ≡ true

append-AllBlock : (xs ys : List RiskReason) → AllBlock xs → AllBlock ys → AllBlock (xs ++ ys)
unfolding AllBlock
append-AllBlock [] ys a b = b
append-AllBlock (x ∷ xs) ys a b = ground (arith, a, append-AllBlock xs ys)

nil-AllBlock : AllBlock []
unfolding AllBlock
nil-AllBlock = refl

one-AllBlock : (r : RiskReason) → is_blocking r ≡ true → AllBlock (r ∷ [])
unfolding AllBlock
one-AllBlock r h = ground (arith, h)

add_if-AllBlock : (b : Bool) (r : RiskReason) → is_blocking r ≡ true → AllBlock (add_if b r)
unfolding add_if
add_if-AllBlock true r h = one-AllBlock r h
add_if-AllBlock false r h = nil-AllBlock

high_blocks :
    (c : Code) (category message : String) → is_blocking (reason c high category message) ≡ true
unfolding is_blocking reason
high_blocks c category message = refl

critical_blocks :
    (c : Code) (category message : String) → is_blocking (reason c critical category message) ≡ true
unfolding is_blocking reason
critical_blocks c category message = refl

missing-AllBlock :
    (evidence : Fields) (names : List String) → AllBlock (missing_reasons evidence names)
unfolding missing_reasons
missing-AllBlock evidence [] = nil-AllBlock
missing-AllBlock evidence (n ∷ names) =
    append-AllBlock _ _ (add_if-AllBlock _ _ (high_blocks _ _ _)) (missing-AllBlock evidence names)

simulation-AllBlock :
    (s : ToolSemantics) (evidence : Fields) → AllBlock (simulation_reasons s evidence)
unfolding simulation_reasons AllBlock reason is_blocking add_if
simulation-AllBlock s evidence = ground arith

limit-AllBlock : (amount : Option ℕ) (o : Option SpenderLimit) → AllBlock (limit_reasons amount o)
unfolding limit_reasons
limit-AllBlock amount none = one-AllBlock _ (high_blocks _ _ _)
limit-AllBlock amount (some l) = add_if-AllBlock _ _ (high_blocks _ _ _)

approval-AllBlock :
    (s : ToolSemantics) (evidence : Fields) (p : PolicySnapshot)
    → AllBlock (approval_reasons s evidence p)
unfolding approval_reasons
approval-AllBlock s evidence p = elim (Bool-cases (is_approval s.tool_class)) [
  | inl here ↦ simp here (
      append-AllBlock
        (add_if (is_unlimited evidence) (
          reason policy_unlimited_approval_blocked critical "token_approval" "Unlimited approval."))
        _ (add_if-AllBlock _ _ (critical_blocks _ _ _))
        (limit-AllBlock (amount_of evidence)
          (find_limit (get "token" evidence) (get "spender" evidence) p.allowed_spenders)))
  | inr gone ↦ simp gone nil-AllBlock
]

-- Every reason of every list blocks.
abbrev EachBlocks : List (List RiskReason) → Type 0
EachBlocks [] = Unit
EachBlocks (rs ∷ rss) = AllBlock rs × EachBlocks rss

joined-AllBlock : (rss : List (List RiskReason)) → EachBlocks rss → AllBlock (joined rss)
unfolding joined
joined-AllBlock [] h = nil-AllBlock
joined-AllBlock (rs ∷ rss) (a, b) = append-AllBlock rs (joined rss) a (joined-AllBlock rss b)

pub checks-AllBlock :
    (number_of_text : String → Value) (s : ToolSemantics) (p : PolicySnapshot) (evidence : Fields)
    → AllBlock (joined (checks number_of_text s p evidence))
unfolding checks
checks-AllBlock number_of_text s p evidence = joined-AllBlock (checks number_of_text s p evidence) (
  add_if-AllBlock _ _ (critical_blocks _ _ _),
  (
    add_if-AllBlock _ _ (high_blocks _ _ _),
    (
      missing-AllBlock evidence s.required_fields,
      (
        missing-AllBlock evidence s.required_evidence,
        (
          simulation-AllBlock s evidence,
          (
            add_if-AllBlock _ _ (high_blocks _ _ _),
            (
              add_if-AllBlock _ _ (high_blocks _ _ _),
              (
                add_if-AllBlock _ _ (high_blocks _ _ _),
                (
                  add_if-AllBlock _ _ (high_blocks _ _ _),
                  (approval-AllBlock s evidence p, (add_if-AllBlock _ _ (high_blocks _ _ _), tt)),
                ),
              ),
            ),
          ),
        ),
      ),
    ),
  ),
)

sort_not_nil : (r : RiskReason) (rs : List RiskReason) → insert_reason r rs ≢ []
unfolding insert_reason
sort_not_nil r [] e = cc e
sort_not_nil r (s ∷ rs) e = elim (Bool-cases (ltb (level_score r.level) (level_score s.level))) [
  | inl less ↦ cc (simp less at e)
  | inr more ↦ cc (simp more at e)
]

-- Where every reason blocks, there is no finding only if there is no reason.
pub blocking_nil_iff :
    (rs : List RiskReason) → AllBlock rs → ((summarize_risk rs).blocking_findings ≡ []) ↔ (rs ≡ [])
unfolding AllBlock summarize_risk sort_reasons
blocking_nil_iff [] h = (λ e. refl, λ e. refl)
blocking_nil_iff (r ∷ rs) h = elim (Bool-cases (is_blocking r)) [
  | inl here ↦ (
    λ e. absurd (sort_not_nil r (sort_reasons (filter is_blocking rs)) (simp here at e)),
    λ e. cc e,
  )
  | inr gone ↦ cc (simp gone at h)
]

without_codes-AllBlock :
    (seen : List String) (rs : List RiskReason) → AllBlock rs → AllBlock (without_codes seen rs)
unfolding without_codes AllBlock
without_codes-AllBlock seen [] h = refl
without_codes-AllBlock seen (r ∷ rs) h =
    let shorter = without_codes-AllBlock seen rs (ground (arith, h)) in
    let rest = without_codes-AllBlock (code_text r.code ∷ seen) rs (ground (arith, h)) in
    ground (arith, h, shorter, rest)

without_codes-nil_iff : (rs : List RiskReason) → (without_codes [] rs ≡ []) ↔ (rs ≡ [])
unfolding without_codes
without_codes-nil_iff [] = (λ e. refl, λ e. refl)
without_codes-nil_iff (r ∷ rs) = (λ e. cc e, λ e. cc e)

-- The checks block unless they find nothing.
pub check-nil_iff :
    (rs : List RiskReason)
    → AllBlock rs
    → ((summarize_risk (without_codes [] rs)).blocking_findings ≡ []) ↔ (rs ≡ [])
check-nil_iff rs h =
    let (a, b) = blocking_nil_iff (without_codes [] rs) (without_codes-AllBlock [] rs h) in
    let (c, d) = without_codes-nil_iff rs in (λ e. c (a e), λ e. b (d e))
