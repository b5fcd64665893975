-- ===== src/Js/Numbers.antt =====
-- Numbers in texts: the canonical decimal, and `Number(v)`.
use Prim.Native.Char.{code}
use monad_hackathon.Js.{Value, arr, bool, null, num, obj, other_num, str, to_text, undefined}
use monad_hackathon.Prelude.{
  Bool, Option, String, false, if◌then◌else◌, leb, none, refl, some, str_eq, true, ℕ, ◌&&◌, ◌*◌,
  ◌+◌, ◌-◌, ◌==◌, ◌≡◌,
}

unfoldable pub digits_value : ℕ → String → Option ℕ
digits_value sum String.[] = some sum
digits_value sum (String.◌∷◌ c s) =
    let rest = digits_value (sum * 10 + (code c - 48)) s in
    if leb 48 (code c) && leb (code c) 57 then rest else none

-- The number of a text that `/^[0-9]+$/` accepts.
unfoldable pub plain_decimal : String → Option ℕ
unfolding digits_value
plain_decimal String.[] = none
plain_decimal (String.◌∷◌ c s) = digits_value 0 (String.◌∷◌ c s)

-- The number of a text that `/^(0|[1-9][0-9]*)$/` accepts.
unfoldable pub canonical_decimal : String → Option ℕ
unfolding plain_decimal
canonical_decimal String.[] = none
canonical_decimal (String.◌∷◌ c s) =
    let all_digits = plain_decimal (String.◌∷◌ c s) in
    if code c == 48 then (if str_eq s "" then some 0 else none) else all_digits

-- `Number(s)` of a text that is neither empty nor decimal digits is the parameter `number_of_text`.
module _ (number_of_text : String → Value) where
  number_text : String → Value
  unfolding plain_decimal
  number_text s =
      if str_eq s ""
      then num 0
      else elim (plain_decimal s) [ some n ↦ num n | none ↦ number_of_text s ]

  -- `Number(v)`
  unfoldable pub to_number : Value → Value
  unfolding number_text to_text
  to_number undefined = other_num "NaN"
  to_number null = num 0
  to_number (bool true) = num 1
  to_number (bool false) = num 0
  to_number (num n) = num n
  to_number (other_num s) = other_num s
  to_number (str s) = number_text s
  to_number (arr xs) = number_text (to_text (arr xs))
  to_number (obj fs) = other_num "NaN"

-- `v === n`, for a natural n.
unfoldable pub is_num : ℕ → Value → Bool
is_num n (num m) = m == n
is_num n _ = false

decimal_runs :
    (canonical_decimal "1070" ≡ some 1070)
    × (canonical_decimal "010" ≡ none)
    × (canonical_decimal "0" ≡ some 0)
    × (canonical_decimal "" ≡ none)
    × (canonical_decimal "1e3" ≡ none)
unfolding canonical_decimal
decimal_runs = (refl, refl, refl, refl, refl)
