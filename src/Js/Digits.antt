-- ===== src/Js/Digits.antt =====
-- The fuel of `String(n)` on naturals.
-- Any fuel above the number gives the same digits as one more.
use monad_hackathon.Js.{decimal, digits_before}
use monad_hackathon.Prelude.{
  Bool-cases, String, ap, arith, inl, inr, ltb, refl, suc, zero, ℕ, ◌+◌, ◌/◌, ◌<◌, ◌∙◌, ◌≡◌,
}

digits_before-fuel :
    (fuel n : ℕ) (rest : String)
    → n < fuel
    → digits_before (suc fuel) n rest ≡ digits_before fuel n rest
unfolding digits_before
digits_before-fuel zero n rest h = absurd (omega (arith, h))
digits_before-fuel (suc fuel) n rest h = elim (Bool-cases (ltb n 10)) [
  | inl small ↦ simp small refl
  | inr large ↦
      let less : n / 10 < fuel = ground (arith, large, h) in
      simp large (digits_before-fuel fuel (n / 10) _ less)
]

-- More fuel than `decimal` takes changes no digit of the number.
decimal-fuel : (n k : ℕ) → digits_before (k + suc n) n "" ≡ decimal n
unfolding decimal
decimal-fuel n zero =
    let same : 0 + suc n ≡ suc n = omega arith in ap (λ f. digits_before f n "") same
decimal-fuel n (suc k) =
    let same : suc k + suc n ≡ suc (k + suc n) = omega arith in
    ap (λ f. digits_before f n "") same
    ∙ digits_before-fuel (k + suc n) n "" (omega arith)
    ∙ decimal-fuel n k
