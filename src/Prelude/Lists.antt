-- ===== src/Prelude/Lists.antt =====
-- Lists over the native numbers, and predicates on lists by recursion.
use Prim.Native.Nat.{ℕ, zero, suc, ◌+◌, ◌-◌, ◌≤◌}
use mathlib.Core.Path.{◌≡◌, refl, ap}
use mathlib.Core.Bool.{Bool, true, false, ◌&&◌, ◌||◌}
use mathlib.Core.Logic.{◌⊎◌, inl, inr}
use mathlib.Core.List.{List, [], ◌∷◌, ◌++◌, map}
use native.Mathlib.Omega.{arith}
use monad_hackathon.Prelude.Tests.{Bool-cases, if◌then◌else◌}

module _ {ℓ} {A : Type ℓ} where
  abbrev pub length : List A → ℕ
  length [] = 0
  length (x ∷ xs) = suc (length xs)

  abbrev pub drop : ℕ → List A → List A
  drop zero xs = xs
  drop (suc n) [] = []
  drop (suc n) (x ∷ xs) = drop n xs

  abbrev pub any : (A → Bool) → List A → Bool
  any p [] = false
  any p (x ∷ xs) = p x || any p xs

  abbrev pub all : (A → Bool) → List A → Bool
  all p [] = true
  all p (x ∷ xs) = p x && all p xs

  -- `xs.filter(p)`; the library's takes a decision procedure.
  abbrev pub filter : (A → Bool) → List A → List A
  filter p [] = []
  filter p (x ∷ xs) = if p x then x ∷ filter p xs else filter p xs

  pub length-append : (xs ys : List A) → length (xs ++ ys) ≡ length xs + length ys
  length-append [] ys = omega arith
  length-append (x ∷ xs) ys = omega (arith, length-append xs ys)

-- Membership as a recursive sum, which the tactics take apart.
abbrev pub In : {A : Type 0} → A → List A → Type 0
In a [] = ⊥
In a (x ∷ xs) = (a ≡ x) ⊎ In a xs

module _ {ℓ κ} {A : Type ℓ} (P : A → Type κ) where
  abbrev pub All : List A → Type κ
  All [] = Unit
  All (x ∷ xs) = P x × All xs

module _ {ℓ} {A : Type ℓ} where
  pub length-drop : (n : ℕ) (xs : List A) → length (drop n xs) ≡ length xs - n
  length-drop zero xs = omega arith
  length-drop (suc n) [] = omega arith
  length-drop (suc n) (x ∷ xs) = omega (arith, length-drop n xs)

  pub drop-append : (n : ℕ) (xs ys : List A) → n ≤ length xs → drop n (xs ++ ys) ≡ drop n xs ++ ys
  drop-append zero xs ys h = refl
  drop-append (suc n) [] ys h = absurd (omega arith)
  drop-append (suc n) (x ∷ xs) ys h = drop-append n xs ys (omega arith)

  pub filter-append :
      (p : A → Bool) (xs ys : List A) → filter p (xs ++ ys) ≡ filter p xs ++ filter p ys
  filter-append p [] ys = refl
  filter-append p (x ∷ xs) ys = elim (Bool-cases (p x)) [
    | inl kept ↦ rw (kept, filter-append p xs ys)
    | inr dropped ↦ rw (dropped, filter-append p xs ys)
  ]

module _ {A : Type 0} where
  pub in-filter : (p : A → Bool) (a : A) (xs : List A) → In a (filter p xs) → In a xs × (p a ≡ true)
  in-filter p a [] h = absurd h
  in-filter p a (x ∷ xs) h = elim (Bool-cases (p x)) [
    | inl kept ↦ elim (rw kept at h) [
      | inl e ↦ (inl e, rw e kept)
      | inr later ↦ let (i, q) = in-filter p a xs later in (inr i, q)
    ]
    | inr dropped ↦ let (i, q) = in-filter p a xs (rw dropped at h) in (inr i, q)
  ]

  pub in-filter_of :
      (p : A → Bool) (a : A) (xs : List A) → In a xs → p a ≡ true → In a (filter p xs)
  in-filter_of p a [] h q = absurd h
  in-filter_of p a (x ∷ xs) (inl e) q = rw (rw e at q) (inl e)
  in-filter_of p a (x ∷ xs) (inr h) q = elim (Bool-cases (p x)) [
    | inl kept ↦ rw kept (inr (in-filter_of p a xs h q))
    | inr dropped ↦ rw dropped (in-filter_of p a xs h q)
  ]

module _ {A B : Type 0} (f : A → B) where
  pub in-map : (b : B) (xs : List A) → In b (map f xs) → (a : A) × In a xs × (b ≡ f a)
  in-map b [] h = absurd h
  in-map b (x ∷ xs) (inl e) = (x, inl refl, e)
  in-map b (x ∷ xs) (inr h) = let (a, i, e) = in-map b xs h in (a, inr i, e)

  pub in-map_of : (a : A) (xs : List A) → In a xs → In (f a) (map f xs)
  in-map_of a [] h = absurd h
  in-map_of a (x ∷ xs) (inl e) = inl (ap f e)
  in-map_of a (x ∷ xs) (inr h) = inr (in-map_of a xs h)

module _ {A : Type 0} where
  pub in-all : (p : A → Bool) (a : A) (xs : List A) → all p xs ≡ true → In a xs → p a ≡ true
  in-all p a [] h i = absurd i
  in-all p a (x ∷ xs) h (inl e) = rw e (ground arith)
  in-all p a (x ∷ xs) h (inr i) = in-all p a xs (ground arith) i
