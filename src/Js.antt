-- ===== src/Js.antt =====
-- The values of the dynamic language, and the rules of it that the program relies on: truthiness,
-- property lookup on a plain object, `String(v)`.
pub mod Json
mod Digits
pub mod Spaces
pub mod BigInt
pub mod Bases
pub mod Decimals
pub mod Numbers
use Prim.Native.Char.{Char}
use Prim.Native.String.{◌++◌}
use Prim.Native.Char.{code}
use monad_hackathon.Prelude.{
  Bool, In, List, Option, String, [], arith, false, if◌then◌else◌, includes, leb, lookup, lookup-In,
  ltb, none, not, refl, some, str_eq, suc, true, zero, ℕ, ◌%◌, ◌&&◌, ◌*◌, ◌+◌, ◌-◌, ◌/◌, ◌==◌, ◌||◌,
  ◌∷◌, ◌≡◌,
}

-- `num` is a number that is a non-negative integer, `other_num` any other, by its `String(n)`
-- ("-1", "0.5", "NaN"). Values come from JSON texts, so there are no functions and no bigints.
mutual
  pub data Value : Type 0 where
    undefined null : Value
    bool : Bool → Value
    num : ℕ → Value
    other_num : String → Value
    str : String → Value
    obj : Fields → Value
    arr : Items → Value

  pub data Fields : Type 0 where
    end : Fields
    field : String → Value → Fields → Fields

  pub data Items : Type 0 where
    nil : Items
    cons : Value → Items → Items

-- `!!v`
unfoldable pub truthy : Value → Bool
truthy undefined = false
truthy null = false
truthy (bool b) = b
truthy (num n) = not (n == 0)
truthy (other_num s) = not (str_eq s "NaN")
truthy (str s) = not (str_eq s "")
truthy _ = true

-- `v != null`
unfoldable pub present : Value → Bool
present undefined = false
present null = false
present _ = true

-- `a || b` on values.
unfoldable pub or_else : Value → Value → Value
unfolding truthy
or_else a b = if truthy a then a else b

-- `o[k]` for an own property; `undefined` where there is none.
unfoldable pub get : String → Fields → Value
get k end = undefined
get k (field j v fs) = if str_eq j k then v else get k fs

-- `o[k] = v`: a property keeps its place, a new one goes last.
unfoldable pub put : String → Value → Fields → Fields
put k v end = field k v end
put k v (field j w fs) = if str_eq j k then field j v fs else field j w (put k v fs)

unfoldable pub keys : Fields → List String
keys end = []
keys (field j v fs) = j ∷ keys fs

-- A lookup in an object literal: an own property, one that every object inherits, or none.
pub data Slot {ℓ} (A : Type ℓ) : Type ℓ where
  own : A → Slot A
  inherited absent : Slot A

abbrev pub object_prototype : List String
object_prototype =
    "constructor" ∷ "__defineGetter__" ∷ "__defineSetter__" ∷ "hasOwnProperty" ∷ "__lookupGetter__"
    ∷ "__lookupSetter__" ∷ "isPrototypeOf" ∷ "propertyIsEnumerable" ∷ "toString" ∷ "valueOf"
    ∷ "__proto__" ∷ "toLocaleString" ∷ []

slot_of {ℓ} : {A : Type ℓ} → Option A → Bool → Slot A
slot_of (some a) b = own a
slot_of none true = inherited
slot_of none false = absent

unfoldable pub member {ℓ} : {A : Type ℓ} → String → List (String × A) → Slot A
unfolding slot_of
member k table = slot_of (lookup k table) (includes object_prototype k)

slot_of-own : {A : Type 0} (o : Option A) (b : Bool) (a : A) → slot_of o b ≡ own a → o ≡ some a
unfolding slot_of
slot_of-own (some x) b a h = ground arith
slot_of-own none true a h = cc
slot_of-own none false a h = cc

pub member-In :
    {A : Type 0} (k : String) (table : List (String × A)) (a : A)
    → member k table ≡ own a
    → In (k, a) table
unfolding member
member-In k table a h = lookup-In k table a (slot_of-own _ _ a h)

abbrev pub digit : ℕ → Char
digit zero = "0"
digit (suc zero) = "1"
digit (suc (suc zero)) = "2"
digit (suc (suc (suc zero))) = "3"
digit (suc (suc (suc (suc zero)))) = "4"
digit (suc (suc (suc (suc (suc zero))))) = "5"
digit (suc (suc (suc (suc (suc (suc zero)))))) = "6"
digit (suc (suc (suc (suc (suc (suc (suc zero))))))) = "7"
digit (suc (suc (suc (suc (suc (suc (suc (suc zero)))))))) = "8"
digit _ = "9"

-- The digits of `n` before `rest`, lowest last; `fuel` is at least their number.
unfoldable pub digits_before : ℕ → ℕ → String → String
digits_before zero n rest = rest
digits_before (suc fuel) n rest =
    let here = String.◌∷◌ (digit (n % 10)) rest in
    let more = digits_before fuel (n / 10) here in if ltb n 10 then here else more

-- `String(n)` of a bigint; it has no more digits than `n + 1`.
unfoldable pub decimal : ℕ → String
unfolding digits_before
decimal n = digits_before (suc n) n ""

-- The doubles from 2 ^ 53 on are the multiples of a power of two, at most 2 ^ 971: which one, about `n`.
spacing : ℕ → ℕ → ℕ
spacing zero n = 1
spacing (suc fuel) n = elim (ltb n 9007199254740992) [ true ↦ 1 | false ↦ 2 * spacing fuel (n / 2) ]

-- The double `n`, a multiple of `gap`, is the one that the text of `m` reads back as: no other is nearer,
-- and on a tie the one whose multiple is even. Below a power of two the doubles are twice as dense.
reads_back : ℕ → ℕ → ℕ → Bool
reads_back gap n m =
    let is_even = n / gap % 2 == 0 in
    let over_it = 2 * (m - n) in
    let under_it = (if n / gap == 4503599627370496 then 4 else 2) * (n - m) in
    if is_even then leb over_it gap && leb under_it gap else ltb over_it gap && ltb under_it gap

-- The multiple of `unit` that reads back as `n`, the nearer one where both neighbours do.
neighbour : ℕ → ℕ → ℕ → Option ℕ
unfolding reads_back
neighbour gap n unit =
    let lower = n / unit * unit in
    let upper = lower + unit in
    if reads_back gap n lower && (leb (n - lower) (upper - n) || not (reads_back gap n upper))
    then some lower
    else if reads_back gap n upper
    then some upper
    else none

-- The first of them with a digit more each time; 17 digits are always enough.
shortest : ℕ → ℕ → ℕ → ℕ → ℕ
unfolding neighbour
shortest zero gap n unit = n
shortest (suc fuel) gap n unit = elim (neighbour gap n unit) [
  | some m ↦ m
  | none ↦ shortest fuel gap n (unit / 10)
]

-- The power of ten with as many digits as `n`, which has at most 309.
ten_power : ℕ → ℕ → ℕ
ten_power zero n = 1
ten_power (suc fuel) n = elim (ltb n 10) [ true ↦ 1 | false ↦ 10 * ten_power fuel (n / 10) ]

without_zeros : String → String
without_zeros String.[] = ""
without_zeros (String.◌∷◌ c s) =
    let rest = without_zeros s in if code c == 48 && str_eq rest "" then "" else String.◌∷◌ c rest

places : String → ℕ
places String.[] = 0
places (String.◌∷◌ c s) = suc (places s)

-- `d.ddde+n` of the digits of a number.
exponent_text : String → String
unfolding without_zeros places decimal
exponent_text String.[] = ""
exponent_text (String.◌∷◌ c s) =
    let rest = without_zeros s in
    String.◌∷◌ c ((if str_eq rest "" then "" else "." ++ rest) ++ ("e+" ++ decimal (places s)))

large_text : ℕ → String
unfolding exponent_text decimal
large_text m = if ltb m 1000000000000000000000 then decimal m else exponent_text (decimal m)

-- `String(n)` of a number that is a non-negative integer: all its digits below 2 ^ 53, then the fewest
-- digits that read back as it, with an exponent from 10 ^ 21 on.
unfoldable pub number_to_text : ℕ → String
unfolding decimal large_text shortest spacing ten_power
number_to_text n = elim (ltb n 9007199254740992) [
  | true ↦ decimal n
  | false ↦ large_text (shortest 17 (spacing 971 n) n (ten_power 308 n))
]

number_runs :
    (number_to_text 10143 ≡ "10143")
    × (number_to_text 1152921504606846976 ≡ "1152921504606847000")
    × (number_to_text 100000000000000000000 ≡ "100000000000000000000")
    × (number_to_text 1000000000000000000000 ≡ "1e+21")
    × (number_to_text 99999999999999991611392 ≡ "1e+23")
    × (number_to_text 1500000000000000000000 ≡ "1.5e+21")
unfolding number_to_text
number_runs = (refl, refl, refl, refl, refl, refl)

-- An item of `xs.join(",")`: a missing one is an empty text.
item_text : Value → String → String
unfolding present
item_text v text = if present v then text else ""

-- `String(v)`
unfoldable mutual
  unfolding number_to_text item_text

  pub to_text : Value → String
  to_text undefined = "undefined"
  to_text null = "null"
  to_text (bool true) = "true"
  to_text (bool false) = "false"
  to_text (num n) = number_to_text n
  to_text (other_num s) = s
  to_text (str s) = s
  to_text (arr xs) = join_items xs
  to_text (obj fs) = "[object Object]"

  pub join_items : Items → String
  join_items nil = ""
  join_items (cons x nil) = item_text x (to_text x)
  join_items (cons x (cons y ys)) = item_text x (to_text x) ++ ("," ++ join_items (cons y ys))

decimal_runs : to_text (arr (cons (num 1070) (cons null (cons (str "x") nil)))) ≡ "1070,,x"
unfolding to_text
decimal_runs = refl
