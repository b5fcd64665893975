-- ===== src/Js/Json.antt =====
-- `JSON.stringify`, and the canonical form of mcp/proxy/toolSemanticsBridge.ts and
-- packages/coding-agent/src/digest/candidateTxDigest.js.
use Prim.Native.String.{◌++◌ as ◌+++◌, compare as compare_text}
use Prim.Native.Nat.{Ordering}
use Prim.Native.Char.{Char, code}
use monad_hackathon.Js.{
  Fields, Items, Value, arr, bool, cons, end, field, nil, null, num, number_to_text, obj, other_num,
  str, undefined,
}
use monad_hackathon.Prelude.{
  Bool, List, String, [], false, if◌then◌else◌, includes, ltb, refl, str_eq, suc, true, zero, ℕ,
  ◌%◌, ◌/◌, ◌==◌, ◌∷◌, ◌≡◌,
}

abbrev pub hex_digits : List Char
hex_digits =
    "0" ∷ "1" ∷ "2" ∷ "3" ∷ "4" ∷ "5" ∷ "6" ∷ "7" ∷ "8" ∷ "9" ∷ "a" ∷ "b" ∷ "c" ∷ "d" ∷ "e" ∷ "f"
    ∷ []

unfoldable pub pick : List Char → ℕ → Char
pick [] n = "0"
pick (c ∷ cs) zero = c
pick (c ∷ cs) (suc n) = pick cs n

-- One character of a text in quotes, before the rest.
escape_char : Char → String → String
unfolding pick
escape_char c rest =
    if code c == 34
    then "\\\"" +++ rest
    else if code c == 92
    then "\\\\" +++ rest
    else if code c == 8
    then "\\b" +++ rest
    else if code c == 9
    then "\\t" +++ rest
    else if code c == 10
    then "\\n" +++ rest
    else if code c == 12
    then "\\f" +++ rest
    else if code c == 13
    then "\\r" +++ rest
    else if ltb (code c) 32
    then "\\u00"
      +++ String.◌∷◌ (pick hex_digits (code c / 16))
          (String.◌∷◌ (pick hex_digits (code c % 16)) rest)
    else String.◌∷◌ c rest

escape : String → String
unfolding escape_char
escape String.[] = "\""
escape (String.◌∷◌ c s) = escape_char c (escape s)

-- `JSON.stringify(s)` of a text.
unfoldable pub quote : String → String
unfolding escape
quote s = "\"" +++ escape s

unfoldable pub is_undefined : Value → Bool
is_undefined undefined = true
is_undefined _ = false

-- `JSON.stringify` of a value that is no array and no object.
unfoldable pub scalar_json : Value → String
unfolding quote number_to_text
scalar_json undefined = "undefined"
scalar_json null = "null"
scalar_json (bool true) = "true"
scalar_json (bool false) = "false"
scalar_json (num n) = number_to_text n
scalar_json (other_num s) = if includes ("NaN" ∷ "Infinity" ∷ "-Infinity" ∷ []) s then "null" else s
scalar_json (str s) = quote s
scalar_json _ = ""

unfoldable pub comma : String → String → String
comma item rest = if str_eq rest "" then item else item +++ ("," +++ rest)

-- `JSON.stringify(v)`: an undefined property is left out, an undefined item is `null`.
unfoldable mutual
  unfolding scalar_json comma is_undefined

  pub stringify : Value → String
  stringify (arr xs) = "[" +++ (stringify_items xs +++ "]")
  stringify (obj fs) = "{" +++ (stringify_fields fs +++ "}")
  stringify v = scalar_json v

  pub stringify_items : Items → String
  stringify_items nil = ""
  stringify_items (cons x xs) =
      comma (if is_undefined x then "null" else stringify x) (stringify_items xs)

  pub stringify_fields : Fields → String
  stringify_fields end = ""
  stringify_fields (field k v fs) =
      if is_undefined v
      then stringify_fields fs
      else comma (quote k +++ (":" +++ stringify v)) (stringify_fields fs)

-- Keys in the order of `sort()`, each with the text of its value; characters beyond U+FFFF would
-- need the order of UTF-16.
unfoldable pub insert_key : String → String → List (String × String) → List (String × String)
insert_key k t [] = (k, t) ∷ []
insert_key k t ((j, u) ∷ m) = elim (compare_text k j) [
  | Ordering.gt ↦ (j, u) ∷ insert_key k t m
  | _ ↦ (k, t) ∷ (j, u) ∷ m
]

unfoldable pub join_fields : List (String × String) → String
unfolding comma quote
join_fields [] = ""
join_fields ((k, t) ∷ m) = comma (quote k +++ (":" +++ t)) (join_fields m)

-- `canonicalJson(value)` of the proxy: keys sorted at every depth, no spaces.
unfoldable mutual
  unfolding scalar_json comma is_undefined insert_key join_fields

  pub canonical_json : Value → String
  canonical_json (arr xs) = "[" +++ (canonical_items xs +++ "]")
  canonical_json (obj fs) = "{" +++ (join_fields (sorted_fields fs) +++ "}")
  canonical_json v = scalar_json v

  -- `items.join(",")`: an undefined item is an empty text.
  pub canonical_items : Items → String
  canonical_items nil = ""
  canonical_items (cons x nil) = if is_undefined x then "" else canonical_json x
  canonical_items (cons x (cons y ys)) =
      (if is_undefined x then "" else canonical_json x) +++ ("," +++ canonical_items (cons y ys))

  pub sorted_fields : Fields → List (String × String)
  sorted_fields end = []
  sorted_fields (field k v fs) = insert_key k (canonical_json v) (sorted_fields fs)

abbrev sample : Value
sample = obj (field "b" (arr (cons (num 1) (cons null nil))) (field "a" (str "x\"") end))

json_tests :
    (canonical_json sample ≡ "{\"a\":\"x\\\"\",\"b\":[1,null]}")
    × (stringify sample ≡ "{\"b\":[1,null],\"a\":\"x\\\"\"}")
unfolding canonical_json stringify
json_tests = (refl, refl)
