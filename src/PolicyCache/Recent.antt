-- ===== src/PolicyCache/Recent.antt =====
-- How old a snapshot from the cache can be.
use monad_hackathon.Idempotency.Once.{lookup-set_entry}
use monad_hackathon.PolicyCache.{
  PolicyCache, PolicyConfig, aged, cache_key, get_cached, hit, set_cached, stale,
}
use monad_hackathon.Prelude.{
  In, List, [], arith, eq_iff, if◌then◌else◌, inl, inr, ltb, not, refl, str_eq, ℕ, ◌&&◌, ◌+◌, ◌-◌,
  ◌==◌, ◌∷◌, ◌≡◌, ◌≤◌, ◌⊎◌,
}

module _ {S : Type 0} where
  get-set_ttl :
      (now : ℕ) (c : PolicyConfig) (snapshot : S) (cache : PolicyCache S)
      → (set_cached now c snapshot cache).ttl_ms ≡ cache.ttl_ms
  unfolding set_cached
  get-set_ttl now c snapshot cache = ground arith

  -- A lookup after a write: the new entry answers for the configurations of its key, as long as it is
  -- not too old, and the cache answers for the others as before.
  pub get_cached-set_cached :
      (later now : ℕ) (c d : PolicyConfig) (snapshot : S) (cache : PolicyCache S)
      → get_cached later d (set_cached now c snapshot cache) ≡ (
          if not (cache.ttl_ms == 0) && str_eq (cache_key c) (cache_key d)
          then if ltb cache.ttl_ms (later - now) then stale else hit snapshot
          else get_cached later d cache)
  unfolding get_cached set_cached aged
  get_cached-set_cached later now c d snapshot cache = ground (
    arith,
    lookup-set_entry (cache_key d) (cache_key c) (record { snapshot = snapshot; created_at = now })
        cache.entries,
  )

-- A write of a snapshot at a time.
pub record Write (S : Type 0) : Type 0 where
  pub at : ℕ
  pub config : PolicyConfig
  pub snapshot : S

module _ {S : Type 0} where
  abbrev pub write_all : List (Write S) → PolicyCache S → PolicyCache S
  write_all [] cache = cache
  write_all (w ∷ ws) cache = write_all ws (set_cached w.at w.config w.snapshot cache)

  -- The write behind a hit.
  abbrev pub IsRecent : ℕ → ℕ → PolicyConfig → S → Write S → Type 0
  IsRecent ttl_ms later d snapshot w =
      (cache_key w.config ≡ cache_key d) × (w.snapshot ≡ snapshot) × (later ≤ w.at + ttl_ms)

  hit_source :
      (later : ℕ) (d : PolicyConfig) (snapshot : S) (w : Write S) (cache : PolicyCache S)
      → get_cached later d (set_cached w.at w.config w.snapshot cache) ≡ hit snapshot
      → IsRecent cache.ttl_ms later d snapshot w ⊎ (get_cached later d cache ≡ hit snapshot)
  hit_source later d snapshot w cache h = ground (
    arith,
    get_cached-set_cached later w.at w.config d w.snapshot cache,
    h,
    eq_iff (cache_key w.config) (cache_key d),
  )

  write_all_hit :
      (later : ℕ) (d : PolicyConfig) (snapshot : S) (ws : List (Write S)) (cache : PolicyCache S)
      → get_cached later d (write_all ws cache) ≡ hit snapshot
      → ((w : Write S) × In w ws × IsRecent cache.ttl_ms later d snapshot w)
        ⊎ (get_cached later d cache ≡ hit snapshot)
  write_all_hit later d snapshot [] cache h = inr h
  write_all_hit later d snapshot (w ∷ ws) cache h =
      elim (write_all_hit later d snapshot ws (set_cached w.at w.config w.snapshot cache) h) [
        | inl (v, i, r) ↦ inl (v, inr i, rw (get-set_ttl w.at w.config w.snapshot cache) at r)
        | inr before ↦ elim (hit_source later d snapshot w cache before) [
          | inl r ↦ inl (w, inl refl, r)
          | inr earlier ↦ inr earlier
        ]
      ]

  -- Whatever is written to a new cache and whenever it is read, a hit is a snapshot that was written
  -- for a configuration with the same key, no longer ago than the cache's time to live.
  pub hit-IsRecent :
      (later : ℕ) (d : PolicyConfig) (snapshot : S) (ws : List (Write S)) (ttl_ms : ℕ)
      → get_cached later d (write_all ws (record { ttl_ms = ttl_ms; entries = [] })) ≡ hit snapshot
      → (w : Write S) × In w ws × IsRecent ttl_ms later d snapshot w
  unfolding get_cached aged
  hit-IsRecent later d snapshot ws ttl_ms h =
      elim (write_all_hit later d snapshot ws (record { ttl_ms = ttl_ms; entries = [] }) h) [
        | inl found ↦ found
        | inr none_yet ↦ ground (arith, none_yet)
      ]
