-- ===== src/Idempotency.antt =====
-- packages/coding-agent/src/idempotency/idempotencyStore.js. Calls of `runOnce` interleave: each is
-- split where it awaits, into `begin`, which runs up to there, and `settle`, which runs once the
-- promise of the side effect has settled. The times, which nothing reads, are left out.
pub mod Once
mod Tests
use monad_hackathon.Prelude.{
  Bool, List, Option, String, [], false, if◌then◌else◌, lookup, none, some, str_eq, true, ◌++◌, ◌∷◌,
  ◌≡◌,
}

pub data Entry (A E : Type 0) : Type 0 where
  pending : Entry A E
  done : A → Entry A E
  failed : E → Entry A E

-- `this._map.set(key, entry)`
unfoldable pub set_entry : {V : Type 0} → String → V → List (String × V) → List (String × V)
set_entry key v [] = (key, v) ∷ []
set_entry key v ((j, w) ∷ m) =
    let rest = set_entry key v m in if str_eq j key then (j, v) ∷ m else (j, w) ∷ rest

-- `started` is no field of the source: it observes, in order, the keys whose function has been called.
pub record IdempotencyStore (A E : Type 0) : Type 0 where
  pub entries : List (String × Entry A E)
  pub started : List String

-- Where a call of `runOnce` stands after its first part: it has thrown for its key, it has started
-- the side effect, it waits for another call's promise, or it has its result or its error.
pub data Begun (A E : Type 0) : Type 0 where
  invalid starts waits : Begun A E
  reuses : A → Begun A E
  raises : E → Begun A E

pub data Settlement (A E : Type 0) : Type 0 where
  fulfilled : A → Settlement A E
  rejected : E → Settlement A E

module _ {A E : Type 0} where
  unfoldable pub has : String → IdempotencyStore A E → Bool
  has key s = elim (lookup key s.entries) [ none ↦ false | some e ↦ true ]

  unfoldable pub begin_with :
      String → IdempotencyStore A E → Option (Entry A E) → IdempotencyStore A E × Begun A E
  unfolding set_entry
  begin_with key s (some pending) = (s, waits)
  begin_with key s (some (done result)) = (s, reuses result)
  begin_with key s (some (failed error)) = (s, raises error)
  begin_with key s none = (
    record { entries = set_entry key pending s.entries; started = s.started ++ key ∷ [] },
    starts,
  )

  unfoldable pub begin : String → IdempotencyStore A E → IdempotencyStore A E × Begun A E
  unfolding begin_with
  begin key s = if str_eq key "" then (s, invalid) else begin_with key s (lookup key s.entries)

  entry_of : Settlement A E → Entry A E
  entry_of (fulfilled result) = done result
  entry_of (rejected error) = failed error

  unfoldable pub settle : String → Settlement A E → IdempotencyStore A E → IdempotencyStore A E
  unfolding set_entry entry_of
  settle key outcome s = record s { entries = set_entry key (entry_of outcome) s.entries }

  abbrev pub new_store : IdempotencyStore A E
  new_store = record { entries = []; started = [] }

-- One step of the interleaving. A promise settles once: only a pending entry does.
pub data Step {A E : Type 0} : IdempotencyStore A E → IdempotencyStore A E → Type 0 where
  begins : (key : String) (s : IdempotencyStore A E) → Step s (begin key s).0
  settles :
      (key : String) (outcome : Settlement A E) (s : IdempotencyStore A E)
      → lookup key s.entries ≡ some pending
      → Step s (settle key outcome s)

pub data Steps {A E : Type 0} : IdempotencyStore A E → IdempotencyStore A E → Type 0 where
  stay : (s : IdempotencyStore A E) → Steps s s
  then_step : {s t u : IdempotencyStore A E} → Steps s t → Step t u → Steps s u
