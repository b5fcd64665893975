-- ===== src/Idempotency/Tests.antt =====
-- The theorems about the store at a concrete interleaving: two calls with one key, and its result.
use monad_hackathon.Idempotency.{
  IdempotencyStore, begin, begins, fulfilled, has, new_store, reuses, set_entry, settle, stay,
  then_step, waits,
}
use monad_hackathon.Idempotency.Once.{begin-settled, count, started_once}
use monad_hackathon.Prelude.{String, [], refl, true, ◌↔◌, ◌∷◌, ◌≡◌, ◌≤◌}

abbrev empty : IdempotencyStore String String
empty = new_store

abbrev first : IdempotencyStore String String
first = (begin "k" empty).0

abbrev second : IdempotencyStore String String
second = (begin "k" first).0

started_once_example :
    (count "k" second.started ≤ 1) × ((count "k" second.started ≡ 1) ↔ (has "k" second ≡ true))
started_once_example =
    started_once second (then_step (then_step (stay empty) (begins "k" empty)) (begins "k" first))
      "k"

begin-settled_example :
    begin "k" (settle "k" (fulfilled "tx") second)
    ≡ (settle "k" (fulfilled "tx") second, reuses "tx")
begin-settled_example =
    begin-settled "k" (fulfilled "tx") second (settle "k" (fulfilled "tx") second) (λ e. cc)
      (stay (settle "k" (fulfilled "tx") second))

-- The second call waits, and one side effect has been started.
waits_run : ((begin "k" first).1 ≡ waits) × (second.started ≡ "k" ∷ [])
unfolding begin set_entry
waits_run = (refl, refl)
