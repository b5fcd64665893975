-- ===== src/Source/Paged.antt =====
-- The paged reads end, and read every entry of a list.
use monad_hackathon.Prelude.{
  Bool-cases, List, Option, [], ap, arith, drop, false, inl, inr, leb, length, ltb, none, refl,
  some, suc, sym, zero, ℕ, ◌++◌, ◌+◌, ◌-◌, ◌<◌, ◌∙◌, ◌∷◌, ◌≡◌, ◌≢◌, ◌≤◌,
}
use monad_hackathon.Source.{
  PageFunction, Paging, after_page, no_fuel, page_failed, page_step, pages, read_from, read_paged,
  smaller, stalled,
}

module _ {A : Type 0} where
  after_page-ends :
      (page : List A) (rest : Paging A) → rest ≢ no_fuel → after_page page rest ≢ no_fuel
  unfolding after_page
  after_page-ends page (pages values) h e = cc e
  after_page-ends page page_failed h e = cc e
  after_page-ends page stalled h e = cc e
  after_page-ends page no_fuel h e = h e

  page_step-ends :
      (cursor : ℕ) (answer : Option (List A × ℕ)) (rest : ℕ → Paging A)
      → ((next : ℕ) → cursor < next → rest next ≢ no_fuel)
      → page_step cursor answer rest ≢ no_fuel
  unfolding page_step
  page_step-ends cursor none rest h e = cc e
  page_step-ends cursor (some (page, next)) rest h e = elim (Bool-cases (leb next cursor)) [
    | inl back ↦ cc (simp back at e)
    | inr forth ↦
        after_page-ends page (rest next) (h next (ground (arith, forth))) (simp forth at e)
  ]

  read_from-ends :
      (fuel : ℕ) (read_page : PageFunction A) (size total cursor : ℕ)
      → 0 < fuel
      → total < fuel + cursor
      → read_from fuel read_page size total cursor ≢ no_fuel
  unfolding read_from
  read_from-ends zero read_page size total cursor some_fuel h e = absurd (omega (arith, some_fuel))
  read_from-ends (suc fuel) read_page size total cursor some_fuel h e =
      elim (Bool-cases (ltb cursor total)) [
        | inr past ↦ cc (simp past at e)
        | inl before ↦
            let near : cursor < total = ground (arith, before) in
            page_step-ends cursor (read_page cursor (smaller size (total - cursor)))
              (λ next. read_from fuel read_page size total next)
              (λ next up.
                read_from-ends fuel read_page size total next (omega (arith, h, near))
                  (omega (arith, h, up)))
              (simp before at e)
      ]

  -- Whatever the contract answers, the loop over the pages ends: its fuel is never used up.
  pub read_paged-ends :
      (read_page : PageFunction A) (total : ℕ) → read_paged read_page total ≢ no_fuel
  unfolding read_paged
  read_paged-ends read_page total =
      read_from-ends (total + 1) read_page 64 total 0 (omega arith) (omega arith)

abbrev take {ℓ} : {A : Type ℓ} → ℕ → List A → List A
take zero xs = []
take (suc n) [] = []
take (suc n) (x ∷ xs) = x ∷ take n xs

both_parts : {A : Type 0} (n : ℕ) (xs : List A) → take n xs ++ drop n xs ≡ xs
both_parts zero xs = refl
both_parts (suc n) [] = refl
both_parts (suc n) (x ∷ xs) = ap (λ ys. x ∷ ys) (both_parts n xs)

nothing_more : (n : ℕ) → 0 + n ≡ n
nothing_more n = omega arith

one_more : (m n : ℕ) → suc m + n ≡ suc (m + n)
one_more m n = omega arith

drop-drop : {A : Type 0} (m n : ℕ) (xs : List A) → drop (m + n) xs ≡ drop n (drop m xs)
drop-drop zero n xs = ap (λ k. drop k xs) (nothing_more n)
drop-drop (suc m) zero [] = ap (λ k. drop k []) (one_more m zero)
drop-drop (suc m) (suc n) [] = ap (λ k. drop k []) (one_more m (suc n))
drop-drop (suc m) n (x ∷ xs) = ap (λ k. drop k (x ∷ xs)) (one_more m n) ∙ drop-drop m n xs

drop_all : {A : Type 0} (n : ℕ) (xs : List A) → length xs ≤ n → drop n xs ≡ []
drop_all zero [] h = refl
drop_all zero (x ∷ xs) h = absurd (omega (arith, h))
drop_all (suc n) [] h = refl
drop_all (suc n) (x ∷ xs) h = drop_all n xs (omega (arith, h))

-- A contract that holds a list and pages it out as it is asked to.
abbrev pub honest : {A : Type 0} → List A → PageFunction A
honest xs cursor size = some (take size (drop cursor xs), cursor + size)

smaller_some : (size m : ℕ) → 0 < size → 0 < m → 0 < smaller size m
smaller_some size m a b = ground (arith, a, b)

not_back : (n cursor : ℕ) → 0 < n → leb (cursor + n) cursor ≡ false
not_back n cursor h = ground (arith, h)

module _ {A : Type 0} where
  honest_step :
      (xs : List A) (cursor n : ℕ) (rest : ℕ → Paging A)
      → 0 < n
      → rest (cursor + n) ≡ pages (drop (cursor + n) xs)
      → page_step cursor (honest xs cursor n) rest ≡ pages (drop cursor xs)
  unfolding page_step after_page
  honest_step xs cursor n rest h e = rw (not_back n cursor h) (
      rw e (
        ap pages (
          ap (λ ys. take n (drop cursor xs) ++ ys) (drop-drop cursor n xs)
          ∙ both_parts n (drop cursor xs))))

  read_from-honest :
      (fuel : ℕ) (xs : List A) (size cursor : ℕ)
      → 0 < size
      → 0 < fuel
      → length xs < fuel + cursor
      → read_from fuel (honest xs) size (length xs) cursor ≡ pages (drop cursor xs)
  unfolding read_from
  read_from-honest zero xs size cursor sized some_fuel h = absurd (omega (arith, some_fuel))
  read_from-honest (suc fuel) xs size cursor sized some_fuel h =
      elim (Bool-cases (ltb cursor (length xs))) [
        | inr past ↦
            let over_it : length xs ≤ cursor = ground (arith, past) in
            simp past (ap pages (sym (drop_all cursor xs over_it)))
        | inl before ↦
            let near : cursor < length xs = ground (arith, before) in
            let n = smaller size (length xs - cursor) in
            let some_n : 0 < n =
              smaller_some size (length xs - cursor) sized (omega (arith, near)) in
            simp before (
              honest_step xs cursor n (λ next. read_from fuel (honest xs) size (length xs) next)
                some_n
                (read_from-honest fuel xs size (cursor + n) sized (omega (arith, h, near))
                  (omega (arith, h, some_n))))
      ]

  -- From a contract that pages out a list, the paged reads bring back exactly that list.
  pub read_paged-honest : (xs : List A) → read_paged (honest xs) (length xs) ≡ pages xs
  unfolding read_paged
  read_paged-honest xs =
      read_from-honest (length xs + 1) xs 64 0 (omega arith) (omega arith) (omega arith)
