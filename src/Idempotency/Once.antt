-- ===== src/Idempotency/Once.antt =====
-- How often the side effect of a key is started, and what later calls with the key get.
use monad_hackathon.Idempotency.{
  Entry, IdempotencyStore, Settlement, Step, Steps, begin, begin_with, begins, done, entry_of,
  failed, fulfilled, has, new_store, pending, raises, rejected, reuses, set_entry, settle, settles,
  stay, then_step,
}
use monad_hackathon.Prelude.{
  Bool-cases, List, Option, String, [], arith, eq_iff, eq_refl, if◌then◌else◌, inl, inr, lookup,
  none, not_empty, refl, some, str_eq, true, ℕ, ◌++◌, ◌+◌, ◌↔◌, ◌∷◌, ◌≡◌, ◌≢◌, ◌≤◌,
}

abbrev pub count : String → List String → ℕ
count key [] = 0
count key (k ∷ ks) = (if str_eq k key then 1 else 0) + count key ks

pub count-append :
    (key j : String) (ks : List String)
    → count key (ks ++ j ∷ []) ≡ count key ks + count key (j ∷ [])
count-append key j [] = omega arith
count-append key j (k ∷ ks) = omega (arith, count-append key j ks)

pub lookup-set_entry :
    {V : Type 0} (k j : String) (v : V) (m : List (String × V))
    → lookup k (set_entry j v m) ≡ (if str_eq j k then some v else lookup k m)
unfolding set_entry
lookup-set_entry k j v [] = refl
lookup-set_entry k j v ((i, w) ∷ m) =
    ground (arith, lookup-set_entry k j v m, eq_iff i j, eq_iff i k, eq_iff j k)

module _ {A E : Type 0} where
  -- A key's side effect has been started once if the key has an entry, and never otherwise.
  abbrev IsCounted : IdempotencyStore A E → Type 0
  IsCounted s = (key : String) → count key s.started ≡ (if has key s then 1 else 0)

  begin_with-IsCounted :
      (key : String) (s : IdempotencyStore A E) (o : Option (Entry A E))
      → lookup key s.entries ≡ o
      → IsCounted s
      → IsCounted (begin_with key s o).0
  unfolding begin_with has
  begin_with-IsCounted key s (some pending) e c = c
  begin_with-IsCounted key s (some (done result)) e c = c
  begin_with-IsCounted key s (some (failed error)) e c = c
  begin_with-IsCounted key s none e c = λ k. ground (
    arith,
    c k,
    count-append k key s.started,
    lookup-set_entry k key pending s.entries,
    eq_iff key k,
    e,
  )

  begin-IsCounted :
      (key : String) (s : IdempotencyStore A E) → IsCounted s → IsCounted (begin key s).0
  unfolding begin
  begin-IsCounted key s c = elim (Bool-cases (str_eq key "")) [
    | inl empty ↦ simp empty c
    | inr filled ↦ simp filled (begin_with-IsCounted key s (lookup key s.entries) refl c)
  ]

  settle-IsCounted :
      (key : String) (outcome : Settlement A E) (s : IdempotencyStore A E)
      → lookup key s.entries ≡ some pending
      → IsCounted s
      → IsCounted (settle key outcome s)
  unfolding settle has
  settle-IsCounted key outcome s e c k =
      ground (arith, c k, lookup-set_entry k key (entry_of outcome) s.entries, eq_iff key k, e)

  Steps-IsCounted : {s t : IdempotencyStore A E} → Steps s t → IsCounted s → IsCounted t
  Steps-IsCounted (stay s) c = c
  Steps-IsCounted (then_step steps (begins key s)) c =
      begin-IsCounted key s (Steps-IsCounted steps c)
  Steps-IsCounted (then_step steps (settles key outcome s e)) c =
      settle-IsCounted key outcome s e (Steps-IsCounted steps c)

  -- However the calls of runOnce and the settlements interleave, the side effect of a key is started
  -- at most once, and it has been started exactly when the store has an entry of the key.
  pub started_once :
      (s : IdempotencyStore A E)
      → Steps new_store s
      → (key : String)
      → (count key s.started ≤ 1) × ((count key s.started ≡ 1) ↔ (has key s ≡ true))
  unfolding has
  started_once s steps key =
      let c = Steps-IsCounted steps (λ k. refl) key in
      (ground (arith, c), (λ one. ground (arith, c, one), λ there. ground (arith, c, there)))

  begin_with-keeps :
      (key k : String) (s : IdempotencyStore A E) (o : Option (Entry A E)) (e : Entry A E)
      → lookup key s.entries ≡ o
      → lookup k s.entries ≡ some e
      → lookup k (begin_with key s o).0.entries ≡ some e
  unfolding begin_with
  begin_with-keeps key k s (some pending) e q h = h
  begin_with-keeps key k s (some (done result)) e q h = h
  begin_with-keeps key k s (some (failed error)) e q h = h
  begin_with-keeps key k s none e q h =
      ground (arith, h, q, lookup-set_entry k key pending s.entries, eq_iff key k)

  Step-keeps :
      {s t : IdempotencyStore A E} (k : String) (e : Entry A E)
      → Step s t
      → e ≢ pending
      → lookup k s.entries ≡ some e
      → lookup k t.entries ≡ some e
  unfolding begin settle
  Step-keeps k e (begins key s) settled h = elim (Bool-cases (str_eq key "")) [
    | inl empty ↦ simp empty h
    | inr filled ↦ simp filled (begin_with-keeps key k s (lookup key s.entries) e refl h)
  ]
  Step-keeps k e (settles key outcome s p) settled h =
      ground
        (arith, h, p, settled, lookup-set_entry k key (entry_of outcome) s.entries, eq_iff key k)

  Steps-keeps :
      {s t : IdempotencyStore A E} (k : String) (e : Entry A E)
      → Steps s t
      → e ≢ pending
      → lookup k s.entries ≡ some e
      → lookup k t.entries ≡ some e
  Steps-keeps k e (stay s) settled h = h
  Steps-keeps k e (then_step steps step) settled h =
      Step-keeps k e step settled (Steps-keeps k e steps settled h)

  settled_stays :
      (key : String) (outcome : Settlement A E) (s t : IdempotencyStore A E)
      → Steps (settle key outcome s) t
      → entry_of outcome ≢ pending
      → lookup key t.entries ≡ some (entry_of outcome)
  unfolding settle
  settled_stays key outcome s t steps settled =
      Steps-keeps key (entry_of outcome) steps settled
        (ground (arith, lookup-set_entry key key (entry_of outcome) s.entries, eq_refl key))

  -- Once the side effect of a key has settled, every later call of runOnce with the key gets its
  -- result again, or its error again, and starts nothing.
  pub begin-settled :
      (key : String) (outcome : Settlement A E) (s t : IdempotencyStore A E)
      → key ≢ ""
      → Steps (settle key outcome s) t
      → begin key t
        ≡ (t, elim outcome [ fulfilled result ↦ reuses result | rejected error ↦ raises error ])
  unfolding begin begin_with settle entry_of
  begin-settled key (fulfilled result) s t filled steps =
      rw (not_empty key filled, settled_stays key (fulfilled result) s t steps cc, begin_with) refl
  begin-settled key (rejected error) s t filled steps =
      rw (not_empty key filled, settled_stays key (rejected error) s t steps cc, begin_with) refl
