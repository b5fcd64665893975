-- ===== src/WalletAgent/Command.antt =====
-- `parseCommand` of back/services/adapters/walletAgent.ts: the loop over the matches of its regular
-- expression, each the leftmost one, of its first alternative that matches there.
pub mod Parsed
use Prim.Native.Char.{Char, code}
use monad_hackathon.Js.Spaces.{is_space}
use monad_hackathon.Prelude.{
  Bool, List, Option, String, [], if◌then◌else◌, none, refl, some, suc, zero, ℕ, ◌==◌, ◌∷◌, ◌≡◌,
}
use monad_hackathon.ToolSemantics.Patterns.{match}

pub text_length : String → ℕ
text_length String.[] = 0
text_length (String.◌∷◌ c s) = suc (text_length s)

-- With a character before.
until_after : Char → Option (String × String) → Option (String × String)
until_after c none = none
until_after c (some (word, rest)) = some (String.◌∷◌ c word, rest)

-- What stands before the first character with the code, and after it; `none` where there is none.
until : ℕ → String → Option (String × String)
unfolding until_after
until n String.[] = none
until n (String.◌∷◌ c s) = if code c == n then some ("", s) else until_after c (until n s)

-- `\S+`: the longest run of characters that are no spaces, and what stands after it.
run : String → String × String
unfolding is_space
run String.[] = ("", "")
run (String.◌∷◌ c s) =
    let (word, rest) = run s in
    if is_space c then ("", String.◌∷◌ c s) else (String.◌∷◌ c word, rest)

-- A token that has been found, and the rest.
found : String × String → Option String × String
found (word, rest) = (some word, rest)

found_or : Option (String × String) → String × String → Option String × String
unfolding found
found_or (some match) other = found match
found_or none other = found other

-- The alternatives in order: no token at a space, between double or single quotes, or a run.
alternative :
    Bool
    → Bool
    → Bool
    → String
    → Option (String × String)
    → Option (String × String)
    → String × String
    → Option String × String
unfolding found found_or
alternative space double single s in_double in_single other =
    if space
    then (none, s)
    else if double
    then found_or in_double other
    else if single
    then found_or in_single other
    else found other

-- The match at the character, if it starts one, and the rest.
match_at : Char → String → Option String × String
unfolding alternative until run is_space
match_at c s =
    alternative (is_space c) (code c == 34) (code c == 39) s (until 34 s) (until 39 s)
      (run (String.◌∷◌ c s))

prepend : Option String → Option (List String) → Option (List String)
prepend o none = none
prepend none (some words) = some words
prepend (some word) (some words) = some (word ∷ words)

-- The loop, `none` where the fuel runs out.
tokens : ℕ → String → Option (List String)
unfolding match_at prepend
tokens fuel String.[] = some []
tokens zero (String.◌∷◌ c s) = none
tokens (suc fuel) (String.◌∷◌ c s) =
    let (word, rest) = match_at c s in prepend word (tokens fuel rest)

pub record ParsedCommand : Type 0 where
  pub command : String
  pub args : List String

-- `no_token` is the error of a command without a token.
pub data CommandResult : Type 0 where
  parsed_as : ParsedCommand → CommandResult
  no_token no_fuel : CommandResult

command_of : Option (List String) → CommandResult
command_of none = no_fuel
command_of (some []) = no_token
command_of (some (word ∷ words)) = parsed_as (record { command = word; args = words })

-- `parseCommand`; a match takes a character at least.
unfoldable pub parse_command : String → CommandResult
unfolding tokens command_of text_length
parse_command s = command_of (tokens (text_length s) s)

parse_runs :
    (parse_command "npx -y \"a b\" 'c \"d' e\"f g\""
      ≡ parsed_as (record { command = "npx"; args = "-y" ∷ "a b" ∷ "c \"d" ∷ "e\"f" ∷ "g\"" ∷ [] }))
    × (parse_command "  " ≡ no_token)
    × (parse_command "\"a b" ≡ parsed_as (record { command = "\"a"; args = "b" ∷ [] }))
    × (parse_command "\"\"" ≡ parsed_as (record { command = ""; args = [] }))
unfolding parse_command
parse_runs = (refl, refl, refl, refl)
