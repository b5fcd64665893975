-- ===== src/Prelude/Text.antt =====
-- Texts: the comparison, ASCII lower case, and association lists with text keys.
use Prim.Native.Nat.{ℕ}
use Prim.Native.Char.{Char, code}
use Prim.Native.String.{String}
use mathlib.Core.Path.{◌≡◌, sym}
use mathlib.Core.Logic.{◌≢◌, inl, inr}
use mathlib.Core.Bool.{Bool, false, ◌||◌}
use mathlib.Core.Option.{Option, none, some}
use mathlib.Core.List.{List, [], ◌∷◌}
use native.Mathlib.Omega.{arith}
use text.Mathlib.Text.{◌==◌ as text_beq}
use text.Mathlib.TextEquality.{eq_iff}
use monad_hackathon.Prelude.Lists.{In}
use monad_hackathon.Prelude.Tests.{Bool-cases, ◌==◌, if◌then◌else◌}

-- `a === b` on texts.
abbrev pub str_eq : String → String → Bool
str_eq = text_beq

abbrev capitals : List (ℕ × Char)
capitals =
    (65, "a")
    ∷ (66, "b")
    ∷ (67, "c")
    ∷ (68, "d")
    ∷ (69, "e")
    ∷ (70, "f")
    ∷ (71, "g")
    ∷ (72, "h")
    ∷ (73, "i")
    ∷ (74, "j")
    ∷ (75, "k")
    ∷ (76, "l")
    ∷ (77, "m")
    ∷ (78, "n")
    ∷ (79, "o")
    ∷ (80, "p")
    ∷ (81, "q")
    ∷ (82, "r")
    ∷ (83, "s")
    ∷ (84, "t")
    ∷ (85, "u")
    ∷ (86, "v")
    ∷ (87, "w")
    ∷ (88, "x")
    ∷ (89, "y")
    ∷ (90, "z")
    ∷ []

lower_by : List (ℕ × Char) → Char → Char
lower_by [] c = c
lower_by ((n, l) ∷ m) c = if code c == n then l else lower_by m c

-- `s.toLowerCase()` on ASCII; other characters stay.
unfoldable pub to_lower : String → String
unfolding lower_by
to_lower String.[] = String.[]
to_lower (String.◌∷◌ c s) = String.◌∷◌ (lower_by capitals c) (to_lower s)

abbrev pub lookup {ℓ} : {V : Type ℓ} → String → List (String × V) → Option V
lookup k [] = none
lookup k ((j, v) ∷ m) = if text_beq j k then some v else lookup k m

-- `xs.includes(k)`, and `set.has(k)`.
abbrev pub includes : List String → String → Bool
includes [] k = false
includes (x ∷ xs) k = text_beq x k || includes xs k

pub lookup-In :
    {A : Type 0} (k : String) (m : List (String × A)) (a : A) → lookup k m ≡ some a → In (k, a) m
lookup-In k [] a h = cc
lookup-In k ((j, v) ∷ m) a h = elim (Bool-cases (text_beq j k)) [
  | inl same ↦
      let e : j ≡ k = (eq_iff j k).0 same in
      let f : v ≡ a = ground arith in inl (λ i. (sym e i, sym f i))
  | inr other ↦ inr (lookup-In k m a (rw other at h))
]

pub not_empty : (s : String) → s ≢ "" → str_eq s "" ≡ false
not_empty s filled = ground (arith, filled, eq_iff s "")
