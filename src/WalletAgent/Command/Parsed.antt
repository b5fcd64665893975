-- ===== src/WalletAgent/Command/Parsed.antt =====
-- Every command is split, and quoted words are read back.
use Prim.Native.Char.{Char, code}
use monad_hackathon.Js.Spaces.{is_space}
use monad_hackathon.Prelude.{
  All, Bool, Bool-cases, List, Option, String, [], ap, arith, false, inl, inr, none, refl, some,
  suc, true, zero, ℕ, ◌+◌, ◌==◌, ◌∙◌, ◌∷◌, ◌≡◌, ◌≢◌, ◌≤◌,
}
use monad_hackathon.WalletAgent.Command.{
  alternative, command_of, found, found_or, match_at, no_fuel, parse_command, parsed_as, prepend,
  run, text_length, tokens, until, until_after,
}

-- What is left after a match is no longer than a text.
abbrev Within : ℕ → Option (String × String) → Type 0
Within n none = Unit
Within n (some (word, rest)) = text_length rest ≤ n

until_after-Within :
    (n : ℕ) (c : Char) (o : Option (String × String))
    → Within n o
    → Within (suc n) (until_after c o)
unfolding until_after
until_after-Within n c none h = tt
until_after-Within n c (some (word, rest)) h = omega (arith, h)

until-Within : (n : ℕ) (s : String) → Within (text_length s) (until n s)
unfolding until text_length
until-Within n String.[] = tt
until-Within n (String.◌∷◌ c s) = elim (Bool-cases (code c == n)) [
  | inl here ↦ rw here (omega arith)
  | inr later ↦ rw later (until_after-Within (text_length s) c (until n s) (until-Within n s))
]

run-text_length : (s : String) → text_length (run s).1 ≤ text_length s
unfolding run text_length
run-text_length String.[] = omega arith
run-text_length (String.◌∷◌ c s) = elim (Bool-cases (is_space c)) [
  | inl space ↦ rw space (omega arith)
  | inr solid ↦ rw solid (omega (arith, run-text_length s))
]

run-size_solid :
    (c : Char) (s : String)
    → is_space c ≡ false
    → text_length (run (String.◌∷◌ c s)).1 ≤ text_length s
unfolding run
run-size_solid c s solid = rw solid (run-text_length s)

found_or-text_length :
    (n : ℕ) (o : Option (String × String)) (other : String × String)
    → Within n o
    → text_length other.1 ≤ n
    → text_length (found_or o other).1 ≤ n
unfolding found_or found
found_or-text_length n none other h k = k
found_or-text_length n (some (word, rest)) other h k = h

alternative-text_length :
    (space double single : Bool) (s : String) (a b : Option (String × String))
    (other : String × String)
    → Within (text_length s) a
    → Within (text_length s) b
    → (space ≡ false → text_length other.1 ≤ text_length s)
    → text_length (alternative space double single s a b other).1 ≤ text_length s
unfolding alternative found
alternative-text_length true double single s a b other h k m = omega arith
alternative-text_length false true single s a b other h k m =
    found_or-text_length (text_length s) a other h (m refl)
alternative-text_length false false true s a b other h k m =
    found_or-text_length (text_length s) b other k (m refl)
alternative-text_length false false false s a b other h k m = m refl

match_at-text_length : (c : Char) (s : String) → text_length (match_at c s).1 ≤ text_length s
unfolding match_at
match_at-text_length c s =
    alternative-text_length (is_space c) (code c == 34) (code c == 39) s (until 34 s) (until 39 s)
      (run (String.◌∷◌ c s)) (until-Within 34 s) (until-Within 39 s) (run-size_solid c s)

prepend-some :
    (o : Option String) (words : Option (List String)) → words ≢ none → prepend o words ≢ none
unfolding prepend
prepend-some o none h = absurd (h refl)
prepend-some none (some words) h = λ e. cc e
prepend-some (some word) (some words) h = λ e. cc e

tokens-some : (fuel : ℕ) (s : String) → text_length s ≤ fuel → tokens fuel s ≢ none
unfolding tokens text_length
tokens-some fuel String.[] h = λ e. cc e
tokens-some zero (String.◌∷◌ c s) h = absurd (omega (arith, h))
tokens-some (suc fuel) (String.◌∷◌ c s) h =
    prepend-some (match_at c s).0 (tokens fuel (match_at c s).1)
      (tokens-some fuel (match_at c s).1 (omega (arith, h, match_at-text_length c s)))

command_of-ends : (o : Option (List String)) → o ≢ none → command_of o ≢ no_fuel
unfolding command_of
command_of-ends none h e = h refl
command_of-ends (some []) h e = cc e
command_of-ends (some (word ∷ words)) h e = cc e

-- The splitting of a command ends: the length of the text is enough for the loop.
pub parse_command-ends : (s : String) → parse_command s ≢ no_fuel
unfolding parse_command
parse_command-ends s =
    command_of-ends (tokens (text_length s) s) (tokens-some (text_length s) s (omega arith))

-- A word in double quotes before a text, and words in quotes, each with a space after it.
before : String → String → String
before String.[] rest = rest
before (String.◌∷◌ c s) rest = String.◌∷◌ c (before s rest)

quoted : String → String → String
unfolding before
quoted word rest = String.◌∷◌ "\"" (before word (String.◌∷◌ "\"" rest))

pub command_line : List String → String
unfolding quoted
command_line [] = ""
command_line (word ∷ words) = quoted word (String.◌∷◌ " " (command_line words))

-- No double quote.
unfoldable pub Unquoted : String → Type 0
Unquoted String.[] = Unit
Unquoted (String.◌∷◌ c s) = ((code c == 34) ≡ false) × Unquoted s

until-before :
    (word rest : String)
    → Unquoted word
    → until 34 (before word (String.◌∷◌ "\"" rest)) ≡ some (word, rest)
unfolding until before Unquoted
until-before String.[] rest h = refl
until-before (String.◌∷◌ c word) rest (other, h) =
    rw other (ap (until_after c) (until-before word rest h))

match_at-quoted :
    (word rest : String)
    → Unquoted word
    → match_at "\"" (before word (String.◌∷◌ "\"" rest)) ≡ (some word, rest)
unfolding match_at alternative found
match_at-quoted word rest h =
    let other = run (String.◌∷◌ "\"" (before word (String.◌∷◌ "\"" rest))) in
    ap (λ (o : Option (String × String)). found_or o other) (until-before word rest h)

prepend-none : (o : Option (List String)) → prepend none o ≡ o
unfolding prepend
prepend-none none = refl
prepend-none (some words) = refl

tokens-space :
    (fuel : ℕ) (rest : String) → tokens (suc fuel) (String.◌∷◌ " " rest) ≡ tokens fuel rest
unfolding tokens
tokens-space fuel rest = prepend-none (tokens fuel rest)

-- A quoted word is the next token, and the space after it is none.
tokens-quoted :
    (fuel : ℕ) (word rest : String)
    → Unquoted word
    → tokens (suc (suc fuel)) (quoted word (String.◌∷◌ " " rest))
      ≡ prepend (some word) (tokens fuel rest)
unfolding tokens quoted
tokens-quoted fuel word rest h =
    ap (λ (m : Option String × String). prepend m.0 (tokens (suc fuel) m.1))
      (match_at-quoted word (String.◌∷◌ " " rest) h)
    ∙ ap (prepend (some word)) (tokens-space fuel rest)

text_length-before : (word rest : String) → text_length rest ≤ text_length (before word rest)
unfolding text_length before
text_length-before String.[] rest = omega arith
text_length-before (String.◌∷◌ c word) rest = omega (arith, text_length-before word rest)

text_length-quoted : (word rest : String) → text_length rest + 2 ≤ text_length (quoted word rest)
unfolding text_length quoted
text_length-quoted word rest = omega (arith, text_length-before word (String.◌∷◌ "\"" rest))

text_length-space : (rest : String) → text_length (String.◌∷◌ " " rest) ≡ text_length rest + 1
unfolding text_length
text_length-space rest = omega arith

text_length-command_line :
    (word : String) (words : List String)
    → text_length (command_line words) + 3 ≤ text_length (command_line (word ∷ words))
unfolding command_line
text_length-command_line word words =
    let rest = command_line words in
    omega (arith, text_length-quoted word (String.◌∷◌ " " rest), text_length-space rest)

tokens-nil : (fuel : ℕ) → tokens fuel "" ≡ some []
unfolding tokens
tokens-nil zero = refl
tokens-nil (suc fuel) = refl

line-cons :
    (word : String) (words : List String)
    → command_line (word ∷ words) ≡ quoted word (String.◌∷◌ " " (command_line words))
unfolding command_line
line-cons word words = refl

line-nil : command_line [] ≡ ""
unfolding command_line
line-nil = refl

-- With fuel for its length, a line of quoted words is split into them.
tokens-command_line :
    (fuel : ℕ) (words : List String)
    → All Unquoted words
    → text_length (command_line words) ≤ fuel
    → tokens fuel (command_line words) ≡ some words
unfolding prepend
tokens-command_line fuel [] h k = ap (tokens fuel) line-nil ∙ tokens-nil fuel
tokens-command_line zero (word ∷ words) h k =
    absurd (omega (arith, k, text_length-command_line word words))
tokens-command_line (suc zero) (word ∷ words) h k =
    absurd (omega (arith, k, text_length-command_line word words))
tokens-command_line (suc (suc fuel)) (word ∷ words) (u, h) k =
    ap (tokens (suc (suc fuel))) (line-cons word words)
    ∙ tokens-quoted fuel word (command_line words) u
    ∙ ap (prepend (some word))
        (tokens-command_line fuel words h (omega (arith, k, text_length-command_line word words)))

-- A command and arguments without double quotes, each in double quotes, with a space after each, are
-- read back as they are, the empty text and spaces in them included.
pub parse_command-command_line :
    (command : String) (args : List String)
    → All Unquoted (command ∷ args)
    → parse_command (command_line (command ∷ args))
      ≡ parsed_as (record { command = command; args = args })
unfolding parse_command
parse_command-command_line command args h =
    let line = command_line (command ∷ args) in
    ap command_of (tokens-command_line (text_length line) (command ∷ args) h (omega arith))
