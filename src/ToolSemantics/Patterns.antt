-- ===== src/ToolSemantics/Patterns.antt =====
-- The regular expressions of packages/coding-agent/src/tool-semantics/blockedToolRules.js, as data,
-- and a matcher with backtracking. The flag `i` is a match on the text in lower case.
-- `opt_one_of` is `[…]?`, `any` is `.*`, `or_else` is `|`, `not_ending` is `(?!…$)`.
use Prim.Native.Char.{code}
use monad_hackathon.Prelude.{
  Bool, List, String, [], false, not, refl, str_eq, to_lower, true, ℕ, ◌&&◌, ◌==◌, ◌||◌, ◌∷◌, ◌≡◌,
}

pub data Regex : Type 0 where
  lit : String → Regex
  opt_one_of : List ℕ → Regex
  any : Regex
  seq or_else : Regex → Regex → Regex
  not_ending : String → Regex

-- `at_start` is `^…`.
pub data Pattern : Type 0 where
  anywhere at_start : Regex → Pattern

unfoldable pub match_lit : String → String → (String → Bool) → Bool
match_lit String.[] s k = k s
match_lit (String.◌∷◌ c p) String.[] k = false
match_lit (String.◌∷◌ c p) (String.◌∷◌ d s) k = (code c == code d) && match_lit p s k

has_code : List ℕ → ℕ → Bool
has_code [] c = false
has_code (x ∷ xs) c = (x == c) || has_code xs c

match_opt : List ℕ → String → (String → Bool) → Bool
unfolding has_code
match_opt cs String.[] k = k String.[]
match_opt cs (String.◌∷◌ c s) k = (has_code cs (code c) && k s) || k (String.◌∷◌ c s)

-- What `.` does not match.
abbrev line_ends : List ℕ
line_ends = 10 ∷ 13 ∷ 8232 ∷ 8233 ∷ []

match_any : String → (String → Bool) → Bool
unfolding has_code
match_any String.[] k = k String.[]
match_any (String.◌∷◌ c s) k =
    (not (has_code line_ends (code c)) && match_any s k) || k (String.◌∷◌ c s)

-- `k` says whether the rest of the pattern matches the rest of the text.
unfoldable pub match : Regex → String → (String → Bool) → Bool
unfolding match_lit match_opt match_any
match (lit p) s k = match_lit p s k
match (opt_one_of cs) s k = match_opt cs s k
match any s k = match_any s k
match (seq p q) s k = match p s (λ rest. match q rest k)
match (or_else p q) s k = match p s k || match q s k
match (not_ending p) s k = not (str_eq s p) && k s

match_somewhere : Regex → String → Bool
unfolding match
match_somewhere p String.[] = match p String.[] (λ _. true)
match_somewhere p (String.◌∷◌ c s) = match p (String.◌∷◌ c s) (λ _. true) || match_somewhere p s

-- `pattern.test(text)`
unfoldable pub test : String → Pattern → Bool
unfolding match_somewhere to_lower
test text (anywhere p) = match_somewhere p (to_lower text)
test text (at_start p) = match p (to_lower text) (λ _. true)

-- `patterns.some((pattern) => pattern.test(text))`
unfoldable pub any_pattern : String → List Pattern → Bool
unfolding test
any_pattern text [] = false
any_pattern text (p ∷ ps) = test text p || any_pattern text ps

-- `-` and `_`
abbrev dash : Regex
dash = opt_one_of (95 ∷ 45 ∷ [])

abbrev words : String → String → Regex
words a b = seq (lit a) (seq dash (lit b))

abbrev apart : Regex → Regex → Regex
apart a b = seq a (seq any b)

unfoldable pub key_material_patterns : List Pattern
key_material_patterns =
    anywhere (words "private" "key")
    ∷ anywhere (lit "keystore")
    ∷ anywhere (lit "unlock")
    ∷ anywhere (words "export" "key")
    ∷ anywhere (words "remove" "key")
    ∷ []

unfoldable pub dangerous_tool_patterns : List Pattern
dangerous_tool_patterns =
    at_start (lit "write_")
    ∷ anywhere (words "write" "contract")
    ∷ anywhere (words "send" "raw")
    ∷ anywhere (words "raw" "transaction")
    ∷ anywhere (seq (lit "sign") (not_ending "_typed_data"))
    ∷ anywhere (lit "broadcast")
    ∷ anywhere (lit "mint")
    ∷ anywhere (lit "burn")
    ∷ anywhere (apart (lit "nft") (lit "transfer"))
    ∷ anywhere (
        apart (lit "hyperliquid") (
          or_else (lit "import") (or_else (lit "order") (or_else (lit "cancel") (lit "transfer")))))
    ∷ anywhere (apart (or_else (lit "order") (lit "cancel")) (lit "hyperliquid"))
    ∷ []

pattern_tests :
    (any_pattern "get_Private-Key" key_material_patterns ≡ true)
    × (any_pattern "sign_typed_data" dangerous_tool_patterns ≡ false)
    × (any_pattern "sign_typed_data_v4" dangerous_tool_patterns ≡ true)
    × (any_pattern "nft_x_transfer" dangerous_tool_patterns ≡ true)
unfolding any_pattern key_material_patterns dangerous_tool_patterns
pattern_tests = (refl, refl, refl, refl)
