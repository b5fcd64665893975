-- ===== src/Js/Decimals.antt =====
-- The decimal text of a natural is a canonical one, and is read back as the number.
use Prim.Native.Char.{Char, code}
use monad_hackathon.Js.{decimal, digit, digits_before}
use monad_hackathon.Js.Bases.{
  Solid, all_below, all_below-lt, in_base-digit, is_some, is_some-eq, trim-Solid,
}
use monad_hackathon.Js.BigInt.{big_int, digit_of, in_base, literal, numeral, pos, prefixed, read_as}
use monad_hackathon.Js.Numbers.{canonical_decimal, digits_value, plain_decimal}
use monad_hackathon.Js.Spaces.{is_space, trim}
use monad_hackathon.Prelude.{
  Bool, Bool-cases, String, ap, arith, false, inl, inr, leb, ltb, not, not_empty, refl, some,
  str_eq, suc, true, zero, ℕ, ◌%◌, ◌&&◌, ◌*◌, ◌+◌, ◌-◌, ◌/◌, ◌<◌, ◌==◌, ◌∙◌, ◌≡◌,
}

abbrev is_digit : Char → Bool
is_digit c = leb 48 (code c) && leb (code c) 57

digit_table : all_below 10 (λ d. is_digit (digit d) && (code (digit d) - 48 == d)) ≡ true
unfolding all_below
digit_table = refl

digit_reads : (d : ℕ) → d < 10 → (is_digit (digit d) ≡ true) × (code (digit d) - 48 ≡ d)
digit_reads d h =
    both (is_digit (digit d)) (code (digit d) - 48) d (all_below-lt 10 _ d digit_table h)
  where
    both : (b : Bool) (m d : ℕ) → (b && (m == d)) ≡ true → (b ≡ true) × (m ≡ d)
    both true m d h = (refl, ground arith)
    both false m d h = cc h

digits_value-digit :
    (sum d : ℕ) (s : String)
    → d < 10
    → digits_value sum (String.◌∷◌ (digit d) s) ≡ digits_value (sum * 10 + d) s
unfolding digits_value
digits_value-digit sum d s h =
    let (e, f) = digit_reads d h in rw e (ap (λ m. digits_value (sum * 10 + m) s) f)

digits_before-value :
    (fuel n : ℕ) (rest : String)
    → n < fuel
    → digits_value 0 (digits_before fuel n rest) ≡ digits_value n rest
unfolding digits_before
digits_before-value zero n rest h = absurd (omega (arith, h))
digits_before-value (suc fuel) n rest h =
    let d = n % 10 in
    let here = String.◌∷◌ (digit d) rest in
    elim (Bool-cases (ltb n 10)) [
      | inl small ↦
          let same : 0 * 10 + d ≡ n = ground (arith, small) in
          rw small (digits_value-digit 0 d rest (omega arith) ∙ ap (λ m. digits_value m rest) same)
      | inr large ↦
          let less : n / 10 < fuel = ground (arith, large, h) in
          let same : n / 10 * 10 + d ≡ n = omega arith in
          rw large (
            digits_before-value fuel (n / 10) here less
            ∙ digits_value-digit (n / 10) d rest (omega arith)
            ∙ ap (λ m. digits_value m rest) same)
    ]

-- A text that is not empty and starts with another digit than 0.
unfoldable pub Leads : String → Type 0
Leads String.[] = ⊥
Leads (String.◌∷◌ c s) = ltb 48 (code c) ≡ true

lead_table : all_below 9 (λ d. ltb 48 (code (digit (suc d)))) ≡ true
unfolding all_below
lead_table = refl

lead : (d : ℕ) → 0 < d → d < 10 → ltb 48 (code (digit d)) ≡ true
lead zero p h = absurd (omega arith)
lead (suc d) p h = all_below-lt 9 _ d lead_table (omega arith)

digits_before-Leads :
    (fuel n : ℕ) (rest : String) → 0 < n → n < fuel → Leads (digits_before fuel n rest)
unfolding digits_before Leads
digits_before-Leads zero n rest p h = absurd (omega (arith, h))
digits_before-Leads (suc fuel) n rest p h = elim (Bool-cases (ltb n 10)) [
  | inl small ↦
      let small_digit : n % 10 < 10 = omega arith in
      rw small (lead (n % 10) (ground (arith, small)) small_digit)
  | inr large ↦
      rw large
        (digits_before-Leads fuel (n / 10) _ (ground (arith, large)) (ground (arith, large, h)))
]

canonical_decimal-Leads : (s : String) → Leads s → canonical_decimal s ≡ digits_value 0 s
unfolding canonical_decimal plain_decimal Leads
canonical_decimal-Leads String.[] h = absurd h
canonical_decimal-Leads (String.◌∷◌ c s) h =
    let other : (code c == 48) ≡ false = ground (arith, h) in rw other refl

digits_value-decimal : (n : ℕ) → digits_value 0 (decimal n) ≡ some n
unfolding decimal digits_value
digits_value-decimal n = digits_before-value (suc n) n "" (omega arith)

pub decimal-Leads : (n : ℕ) → 0 < n → Leads (decimal n)
unfolding decimal
decimal-Leads n h = digits_before-Leads (suc n) n "" h (omega arith)

zero_reads : canonical_decimal (decimal 0) ≡ some 0
unfolding decimal canonical_decimal
zero_reads = refl

-- The decimal text of a natural is canonical, and stands for the number.
pub canonical_decimal-decimal : (n : ℕ) → canonical_decimal (decimal n) ≡ some n
canonical_decimal-decimal zero = zero_reads
canonical_decimal-decimal (suc n) =
    canonical_decimal-Leads (decimal (suc n)) (decimal-Leads (suc n) (omega arith))
    ∙ digits_value-decimal (suc n)

-- No character is a space or a dot.
unfoldable pub Plain : String → Type 0
Plain String.[] = Unit
Plain (String.◌∷◌ c s) = (is_space c ≡ false) × ((code c == 46) ≡ false) × Plain s

Plain-Solid : (s : String) → Plain s → Solid s
unfolding Plain Solid
Plain-Solid String.[] h = tt
Plain-Solid (String.◌∷◌ c s) (e, f, h) = (e, Plain-Solid s h)

plain_table : all_below 10 (λ d. not (is_space (digit d)) && not (code (digit d) == 46)) ≡ true
unfolding all_below is_space
plain_table = refl

neither_of : (a b : Bool) → (not a && not b) ≡ true → (a ≡ false) × (b ≡ false)
neither_of true b h = cc h
neither_of false true h = cc h
neither_of false false h = (refl, refl)

digits_before-Plain : (fuel n : ℕ) (rest : String) → Plain rest → Plain (digits_before fuel n rest)
unfolding digits_before Plain
digits_before-Plain zero n rest h = h
digits_before-Plain (suc fuel) n rest h =
    let d = n % 10 in
    let (e, f) =
      neither_of (is_space (digit d)) (code (digit d) == 46)
        (all_below-lt 10 _ d plain_table (omega arith)) in
    elim (Bool-cases (ltb n 10)) [
      | inl small ↦ rw small (e, f, h)
      | inr large ↦ rw large (digits_before-Plain fuel (n / 10) _ (e, f, h))
    ]

pub decimal-Plain : (n : ℕ) → Plain (decimal n)
unfolding decimal Plain
decimal-Plain n = digits_before-Plain (suc n) n "" tt

pub trim-decimal : (n : ℕ) → trim (decimal n) ≡ decimal n
trim-decimal n = trim-Solid (decimal n) (Plain-Solid (decimal n) (decimal-Plain n))

base_table : all_below 10 (λ d. is_some (digit_of (digit d)) d) ≡ true
unfolding all_below is_some digit_of
base_table = refl

digit_of-digit : (d : ℕ) → d < 10 → digit_of (digit d) ≡ some d
digit_of-digit d h = is_some-eq _ d (all_below-lt 10 _ d base_table h)

digits_before-in_base :
    (fuel n : ℕ) (rest : String)
    → n < fuel
    → in_base 10 0 (digits_before fuel n rest) ≡ in_base 10 n rest
unfolding digits_before
digits_before-in_base zero n rest h = absurd (omega (arith, h))
digits_before-in_base (suc fuel) n rest h =
    let d = n % 10 in
    let here = String.◌∷◌ (digit d) rest in
    let e = digit_of-digit d (omega arith) in
    elim (Bool-cases (ltb n 10)) [
      | inl small ↦
          let same : 0 * 10 + d ≡ n = ground (arith, small) in
          rw small (in_base-digit 10 0 d _ rest e (omega arith) ∙ ap (λ m. in_base 10 m rest) same)
      | inr large ↦
          let less : n / 10 < fuel = ground (arith, large, h) in
          let same : n / 10 * 10 + d ≡ n = omega arith in
          rw large (
            digits_before-in_base fuel (n / 10) here less
            ∙ in_base-digit 10 (n / 10) d _ rest e (omega arith)
            ∙ ap (λ m. in_base 10 m rest) same)
    ]

in_base-decimal : (n : ℕ) → in_base 10 0 (decimal n) ≡ some n
unfolding decimal in_base
in_base-decimal n = digits_before-in_base (suc n) n "" (omega arith)

literal-Leads : (s : String) → Leads s → literal s ≡ read_as pos (in_base 10 0 s)
unfolding Leads literal numeral
literal-Leads String.[] h = absurd h
literal-Leads (String.◌∷◌ c s) h =
    let minus : (code c == 45) ≡ false = ground (arith, h) in
    let plus : (code c == 43) ≡ false = ground (arith, h) in
    let zero_first : (code c == 48) ≡ false = ground (arith, h) in
    let full : str_eq (String.◌∷◌ c s) "" ≡ false = not_empty (String.◌∷◌ c s) (λ e. cc e) in
    rw minus (rw plus (rw zero_first (rw full refl)))

zero_literal : literal (decimal 0) ≡ some (pos 0)
unfolding literal decimal prefixed
zero_literal = refl

literal-decimal : (n : ℕ) → literal (decimal n) ≡ some (pos n)
unfolding read_as
literal-decimal zero = zero_literal
literal-decimal (suc n) =
    literal-Leads (decimal (suc n)) (decimal-Leads (suc n) (omega arith))
    ∙ ap (read_as pos) (in_base-decimal (suc n))

-- The decimal text of a natural is a big integer's.
pub big_int-decimal : (n : ℕ) → big_int (decimal n) ≡ some (pos n)
unfolding big_int
big_int-decimal n = ap literal (trim-decimal n) ∙ literal-decimal n
