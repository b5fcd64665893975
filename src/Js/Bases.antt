-- ===== src/Js/Bases.antt =====
-- The texts of numbers are read back.
use Prim.Native.Char.{Char}
use monad_hackathon.Js.BigInt.{
  big_int, digit_of, hex_before, hexadecimal, in_base, literal, numeral, pos, prefixed, read_as,
  with_0x,
}
use monad_hackathon.Js.Json.{hex_digits, pick}
use monad_hackathon.Js.Spaces.{is_space, trim, trim_end}
use monad_hackathon.Prelude.{
  Bool, Bool-cases, Option, String, ap, arith, false, inl, inr, ltb, none, not, not_empty, refl,
  some, str_eq, suc, true, zero, ℕ, ◌%◌, ◌&&◌, ◌*◌, ◌+◌, ◌/◌, ◌<◌, ◌==◌, ◌∙◌, ◌≡◌, ◌≢◌,
}

unfoldable pub all_below : ℕ → (ℕ → Bool) → Bool
all_below zero p = true
all_below (suc n) p = p n && all_below n p

pub all_below-lt : (n : ℕ) (p : ℕ → Bool) (x : ℕ) → all_below n p ≡ true → x < n → p x ≡ true
unfolding all_below
all_below-lt zero p x h less = absurd (omega arith)
all_below-lt (suc n) p x h less = ground (arith, all_below-lt n p x)

unfoldable pub is_some : Option ℕ → ℕ → Bool
is_some none d = false
is_some (some e) d = e == d

pub is_some-eq : (o : Option ℕ) (d : ℕ) → is_some o d ≡ true → o ≡ some d
unfolding is_some
is_some-eq none d h = cc h
is_some-eq (some e) d h = ground arith

hex_table : all_below 16 (λ d. is_some (digit_of (pick hex_digits d)) d) ≡ true
unfolding all_below is_some digit_of pick
hex_table = refl

hex_digit : (d : ℕ) → d < 16 → digit_of (pick hex_digits d) ≡ some d
hex_digit d h = is_some-eq _ d (all_below-lt 16 _ d hex_table h)

-- One digit more.
pub in_base-digit :
    (base sum d : ℕ) (c : Char) (s : String)
    → digit_of c ≡ some d
    → d < base
    → in_base base sum (String.◌∷◌ c s) ≡ in_base base (sum * base + d) s
unfolding in_base
in_base-digit base sum d c s e h =
    let small : ltb d base ≡ true = ground (arith, h) in rw (e, in_base) (rw small refl)

hex_before-in_base :
    (fuel n : ℕ) (rest : String)
    → n < fuel
    → in_base 16 0 (hex_before fuel n rest) ≡ in_base 16 n rest
unfolding hex_before
hex_before-in_base zero n rest h = absurd (omega (arith, h))
hex_before-in_base (suc fuel) n rest h =
    let d = n % 16 in
    let here = String.◌∷◌ (pick hex_digits d) rest in
    let e = hex_digit d (omega arith) in
    elim (Bool-cases (ltb n 16)) [
      | inl small ↦
          let same : 0 * 16 + d ≡ n = ground (arith, small) in
          rw small (in_base-digit 16 0 d _ rest e (omega arith) ∙ ap (λ m. in_base 16 m rest) same)
      | inr large ↦
          let less : n / 16 < fuel = ground (arith, large, h) in
          let same : n / 16 * 16 + d ≡ n = omega arith in
          rw large (
            hex_before-in_base fuel (n / 16) here less
            ∙ in_base-digit 16 (n / 16) d _ rest e (omega arith)
            ∙ ap (λ m. in_base 16 m rest) same)
    ]

-- No character is a space.
unfoldable pub Solid : String → Type 0
Solid String.[] = Unit
Solid (String.◌∷◌ c s) = (is_space c ≡ false) × Solid s

trim_end-Solid : (s : String) → Solid s → trim_end s ≡ s
unfolding Solid trim_end
trim_end-Solid String.[] h = refl
trim_end-Solid (String.◌∷◌ c s) (e, h) = rw (e, trim_end-Solid s h) refl

pub trim-Solid : (s : String) → Solid s → trim s ≡ s
unfolding trim Solid
trim-Solid String.[] h = refl
trim-Solid (String.◌∷◌ c s) (e, h) = rw e (trim_end-Solid (String.◌∷◌ c s) (e, h))

solid_table : all_below 16 (λ d. not (is_space (pick hex_digits d))) ≡ true
unfolding all_below is_space pick
solid_table = refl

hex_before-Solid : (fuel n : ℕ) (rest : String) → Solid rest → Solid (hex_before fuel n rest)
unfolding hex_before Solid
hex_before-Solid zero n rest h = h
hex_before-Solid (suc fuel) n rest h =
    let d = n % 16 in
    let solid : is_space (pick hex_digits d) ≡ false =
      ground (arith, all_below-lt 16 _ d solid_table (omega arith)) in
    elim (Bool-cases (ltb n 16)) [
      | inl small ↦ rw small (solid, h)
      | inr large ↦ rw large (hex_before-Solid fuel (n / 16) _ (solid, h))
    ]

-- Hexadecimal texts are not empty.
hex_before-filled : (fuel n : ℕ) (rest : String) → rest ≢ "" → hex_before fuel n rest ≢ ""
unfolding hex_before
hex_before-filled zero n rest h = h
hex_before-filled (suc fuel) n rest h = elim (Bool-cases (ltb n 16)) [
  | inl small ↦ rw small (λ e. cc e)
  | inr large ↦ rw large (hex_before-filled fuel (n / 16) _ (λ e. cc e))
]

hexadecimal-filled : (n : ℕ) → str_eq (hexadecimal n) "" ≡ false
unfolding hexadecimal hex_before
hexadecimal-filled n = elim (Bool-cases (ltb n 16)) [
  | inl small ↦ rw small (not_empty _ (λ e. cc e))
  | inr large ↦ rw large (not_empty _ (hex_before-filled n (n / 16) _ (λ e. cc e)))
]

hexadecimal-Solid : (n : ℕ) → Solid (hexadecimal n)
unfolding hexadecimal Solid
hexadecimal-Solid n = hex_before-Solid (suc n) n "" tt

hexadecimal-in_base : (n : ℕ) → in_base 16 0 (hexadecimal n) ≡ some n
unfolding hexadecimal in_base
hexadecimal-in_base n = hex_before-in_base (suc n) n "" (omega arith)

numeral-hexadecimal : (n : ℕ) → numeral 16 (hexadecimal n) ≡ some n
unfolding numeral
numeral-hexadecimal n = rw (hexadecimal-filled n) (hexadecimal-in_base n)

literal-hexadecimal : (n : ℕ) → literal (with_0x (hexadecimal n)) ≡ some (pos n)
unfolding literal prefixed with_0x read_as
literal-hexadecimal n = ap (read_as pos) (numeral-hexadecimal n)

with_0x-Solid : (s : String) → Solid s → Solid (with_0x s)
unfolding Solid with_0x is_space
with_0x-Solid s h = (refl, (refl, h))

-- The text of a natural in base 16, after 0x, is read back as the number.
pub big_int-hexadecimal : (n : ℕ) → big_int (with_0x (hexadecimal n)) ≡ some (pos n)
unfolding big_int
big_int-hexadecimal n =
    ap literal (trim-Solid _ (with_0x-Solid _ (hexadecimal-Solid n))) ∙ literal-hexadecimal n
