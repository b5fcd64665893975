-- ===== src/Pipeline/Wei.antt =====
-- The amounts of mcp/proxy/guardedPipeline.ts: `toWeiHex`.
use Prim.Native.Char.{code}
use monad_hackathon.Js.{Value, decimal, present, to_text}
use monad_hackathon.Js.Bases.{big_int-hexadecimal}
use monad_hackathon.Js.BigInt.{below, big_int, hex_text, hexadecimal, pos, with_0x, ℤ, ◌*ℤ◌, ◌+ℤ◌}
use monad_hackathon.Js.Decimals.{Plain, big_int-decimal, decimal-Plain, trim-decimal}
use monad_hackathon.Js.Spaces.{trim}
use monad_hackathon.Prelude.{
  Bool-cases, Option, String, ap, if◌then◌else◌, inl, inr, ltb, none, not, refl, some, str_eq, suc,
  true, zero, ℕ, ◌*◌, ◌==◌, ◌∙◌, ◌≡◌,
}

-- `s.split(".")`: what stands before the first dot, and between it and the next, if there is one.
before_dot : String → String
before_dot String.[] = ""
before_dot (String.◌∷◌ c s) = if code c == 46 then "" else String.◌∷◌ c (before_dot s)

after_dot : String → Option String
after_dot String.[] = none
after_dot (String.◌∷◌ c s) = if code c == 46 then some s else after_dot s

-- `(frac + "0".repeat(18)).slice(0, 18)`
padded : ℕ → String → String
padded zero s = ""
padded (suc n) String.[] = String.◌∷◌ "0" (padded n "")
padded (suc n) (String.◌∷◌ c s) = String.◌∷◌ c (padded n s)

abbrev pub ether : ℕ
ether = 1000000000000000000

or_zero : String → String
or_zero s = if str_eq s "" then "0" else s

wei_hex : ℤ → String
unfolding with_0x hex_text
wei_hex z = with_0x (hex_text z)

-- The wei of a decimal number of MON.
decimal_wei : Option ℤ → Option ℤ → Option String
unfolding wei_hex ◌+ℤ◌ ◌*ℤ◌
decimal_wei (some whole) (some part) = some (wei_hex (whole *ℤ pos ether +ℤ part))
decimal_wei whole part = none

-- A whole number below 10 ^ 9 counts as MON, any other as wei.
whole_wei : Option ℤ → Option String
unfolding wei_hex ◌*ℤ◌ below
whole_wei none = none
whole_wei (some n) = some (wei_hex (if below 1000000000 n then n *ℤ pos ether else n))

wei_text : String → Option String
unfolding before_dot after_dot padded decimal_wei whole_wei or_zero big_int
wei_text s = elim (after_dot s) [
  | none ↦ whole_wei (big_int s)
  | some frac ↦
      decimal_wei (big_int (or_zero (before_dot s))) (big_int (padded 18 (before_dot frac)))
]

-- `toWeiHex`
unfoldable pub to_wei_hex : Value → Option String
unfolding wei_text present to_text trim
to_wei_hex value = if not (present value) then none else wei_text (trim (to_text value))

after_dot-Plain : (s : String) → Plain s → after_dot s ≡ none
unfolding Plain after_dot
after_dot-Plain String.[] h = refl
after_dot-Plain (String.◌∷◌ c s) (e, f, h) = rw f (after_dot-Plain s h)

-- The wei that a whole number counts for.
abbrev pub wei_of : ℕ → ℕ
wei_of n = if ltb n 1000000000 then n * ether else n

whole_wei-pos : (n : ℕ) → whole_wei (some (pos n)) ≡ some (with_0x (hexadecimal (wei_of n)))
unfolding whole_wei below ◌*ℤ◌ wei_hex hex_text
whole_wei-pos n = elim (Bool-cases (ltb n 1000000000)) [
  | inl small ↦ rw small refl
  | inr large ↦ rw large refl
]

wei_text-decimal : (n : ℕ) → wei_text (decimal n) ≡ some (with_0x (hexadecimal (wei_of n)))
unfolding wei_text
wei_text-decimal n =
    rw (after_dot-Plain (decimal n) (decimal-Plain n), wei_text)
      (ap whole_wei (big_int-decimal n) ∙ whole_wei-pos n)

-- An amount whose text is the digits of a whole number is simulated as a text that the chain reads back
-- as its wei: the number itself from 10 ^ 9 on, and 10 ^ 18 times the number below, so a small amount of
-- wei is simulated as that amount of MON.
pub to_wei_hex-reads :
    (v : Value) (n : ℕ)
    → present v ≡ true
    → to_text v ≡ decimal n
    → (h : String) × (to_wei_hex v ≡ some h) × (big_int h ≡ some (pos (wei_of n)))
unfolding to_wei_hex
to_wei_hex-reads v n there e = (
  with_0x (hexadecimal (wei_of n)),
  rw there (
      ap (λ (s : String). wei_text (trim s)) e ∙ ap wei_text (trim-decimal n) ∙ wei_text-decimal n),
  big_int-hexadecimal (wei_of n),
)
