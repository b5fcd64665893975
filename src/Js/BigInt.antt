-- ===== src/Js/BigInt.antt =====
-- Big integers: `BigInt(s)`, their sums and products, and their texts in base 10 and 16.
use Prim.Native.Char.{Char, code}
use monad_hackathon.Js.{decimal}
use monad_hackathon.Js.Json.{hex_digits, pick}
use monad_hackathon.Js.Spaces.{trim}
use monad_hackathon.Prelude.{
  Bool, Option, String, if◌then◌else◌, leb, ltb, none, refl, some, str_eq, suc, true, zero, ℕ, ◌%◌,
  ◌&&◌, ◌*◌, ◌+◌, ◌-◌, ◌/◌, ◌==◌, ◌||◌, ◌≡◌,
}

-- `negsuc n` is -(n + 1).
pub data ℤ : Type 0 where
  pos : ℕ → ℤ
  negsuc : ℕ → ℤ

-- -n
unfoldable pub opposite : ℕ → ℤ
opposite zero = pos 0
opposite (suc n) = negsuc n

difference : ℕ → ℕ → ℤ
unfolding opposite
difference a b = if leb b a then pos (a - b) else opposite (b - a)

infixl 65 ◌+ℤ◌
unfoldable pub ◌+ℤ◌ : ℤ → ℤ → ℤ
unfolding difference
pos a +ℤ pos b = pos (a + b)
pos a +ℤ negsuc b = difference a (suc b)
negsuc a +ℤ pos b = difference b (suc a)
negsuc a +ℤ negsuc b = negsuc (a + b + 1)

infixl 70 ◌*ℤ◌
unfoldable pub ◌*ℤ◌ : ℤ → ℤ → ℤ
unfolding opposite
pos a *ℤ pos b = pos (a * b)
pos a *ℤ negsuc b = opposite (a * suc b)
negsuc a *ℤ pos b = opposite (suc a * b)
negsuc a *ℤ negsuc b = pos (suc a * suc b)

-- `z < n`, for a natural n.
unfoldable pub below : ℕ → ℤ → Bool
below n (pos a) = ltb a n
below n (negsuc a) = true

-- The hexadecimal digits of `n` before `rest`.
unfoldable pub hex_before : ℕ → ℕ → String → String
unfolding pick
hex_before zero n rest = rest
hex_before (suc fuel) n rest =
    let here = String.◌∷◌ (pick hex_digits (n % 16)) rest in
    let more = hex_before fuel (n / 16) here in if ltb n 16 then here else more

-- `n.toString(16)`; a number has no more digits than `n + 1`.
unfoldable pub hexadecimal : ℕ → String
unfolding hex_before
hexadecimal n = hex_before (suc n) n ""

-- `z.toString(10)`, and `z.toString(16)`.
unfoldable pub decimal_text : ℤ → String
unfolding decimal
decimal_text (pos n) = decimal n
decimal_text (negsuc n) = String.◌∷◌ "-" (decimal (suc n))

unfoldable pub hex_text : ℤ → String
unfolding hexadecimal
hex_text (pos n) = hexadecimal n
hex_text (negsuc n) = String.◌∷◌ "-" (hexadecimal (suc n))

-- `"0x" + s`
unfoldable pub with_0x : String → String
with_0x s = String.◌∷◌ "0" (String.◌∷◌ "x" s)

-- The value of a digit, up to 15.
unfoldable pub digit_of : Char → Option ℕ
digit_of c =
    let n = code c in
    if leb 48 n && leb n 57
    then some (n - 48)
    else if leb 97 n && leb n 102
    then some (n - 87)
    else if leb 65 n && leb n 70
    then some (n - 55)
    else none

-- The number of digits in a base, the first ones having the number `sum`.
unfoldable pub in_base : ℕ → ℕ → String → Option ℕ
unfolding digit_of
in_base base sum String.[] = some sum
in_base base sum (String.◌∷◌ c s) =
    let rest : ℕ → Option ℕ = λ d. in_base base (sum * base + d) s in
    elim (digit_of c) [ none ↦ none | some d ↦ if ltb d base then rest d else none ]

unfoldable pub numeral : ℕ → String → Option ℕ
unfolding in_base
numeral base s = if str_eq s "" then none else in_base base 0 s

-- A text that starts with 0: in base 16, 8, 2 or 10.
unfoldable pub prefixed : String → Option ℕ
unfolding numeral
prefixed (String.◌∷◌ zero_char (String.◌∷◌ c s)) =
    if code c == 120 || code c == 88
    then numeral 16 s
    else if code c == 111 || code c == 79
    then numeral 8 s
    else if code c == 98 || code c == 66
    then numeral 2 s
    else numeral 10 (String.◌∷◌ c s)
prefixed s = numeral 10 s

unfoldable pub read_as : (ℕ → ℤ) → Option ℕ → Option ℤ
read_as sign none = none
read_as sign (some n) = some (sign n)

unfoldable pub literal : String → Option ℤ
unfolding numeral prefixed opposite read_as
literal String.[] = some (pos 0)
literal (String.◌∷◌ c s) =
    if code c == 45
    then read_as opposite (numeral 10 s)
    else if code c == 43
    then read_as pos (numeral 10 s)
    else if code c == 48
    then read_as pos (prefixed (String.◌∷◌ c s))
    else read_as pos (numeral 10 (String.◌∷◌ c s))

-- `BigInt(s)`, `none` where it throws.
unfoldable pub big_int : String → Option ℤ
unfolding literal trim
big_int s = literal (trim s)

abbrev sum_or : ℕ → Option ℕ → ℕ
sum_or d none = d
sum_or d (some n) = n

-- The longest run of digits in base 16, after at least one.
hex_start : Option ℕ → String → Option ℕ
unfolding digit_of
hex_start sum String.[] = sum
hex_start sum (String.◌∷◌ c s) =
    let rest : ℕ → Option ℕ = λ d. hex_start (some (sum_or 0 sum * 16 + d)) s in
    elim (digit_of c) [ none ↦ sum | some d ↦ rest d ]

without_prefix : String → String
without_prefix (String.◌∷◌ a (String.◌∷◌ b s)) =
    if code a == 48 && (code b == 120 || code b == 88) then s else String.◌∷◌ a (String.◌∷◌ b s)
without_prefix s = s

unsigned_start : (ℕ → ℤ) → String → Option ℤ
unfolding hex_start without_prefix read_as
unsigned_start sign s = read_as sign (hex_start none (without_prefix s))

signed_start : String → Option ℤ
unfolding unsigned_start opposite
signed_start String.[] = none
signed_start (String.◌∷◌ c s) =
    if code c == 45
    then unsigned_start opposite s
    else if code c == 43
    then unsigned_start pos s
    else unsigned_start pos (String.◌∷◌ c s)

-- `Number.parseInt(s, 16)`, `none` for NaN; a double would round a number from 2 ^ 53 on.
unfoldable pub parse_int_16 : String → Option ℤ
unfolding signed_start trim
parse_int_16 s = signed_start (trim s)

hex_runs :
    (hex_text (pos 1070) ≡ "42e")
    × (hex_text (pos 10 +ℤ negsuc 29) ≡ "-14")
    × (big_int " 0x42E " ≡ some (pos 1070))
    × (big_int "-12" ≡ some (negsuc 11))
    × (big_int "" ≡ some (pos 0))
    × (big_int "1.5" ≡ none)
    × (big_int "0x" ≡ none)
    × (parse_int_16 "0x279f" ≡ some (pos 10143))
    × (parse_int_16 "0x" ≡ none)
    × (parse_int_16 "-1z" ≡ some (negsuc 0))
unfolding hex_text ◌+ℤ◌ big_int parse_int_16
hex_runs = (refl, refl, refl, refl, refl, refl, refl, refl, refl, refl)
