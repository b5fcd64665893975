-- ===== src/Source/Fetch/Tests.antt =====
-- A read of a contract, and the theorems at it.
use monad_hackathon.Codes.{policy_contract_stale_or_dead}
use monad_hackathon.Js.{str, undefined}
use monad_hackathon.Policy.{PolicySnapshot}
use monad_hackathon.Policy.Demo.{demo_policy}
use monad_hackathon.Prelude.{inl, inr, refl, some, to_lower, true, ◌↔◌, ◌≡◌}
use monad_hackathon.Source.Demo.{demo_chain, demo_options, recipient}
use monad_hackathon.Source.Fetch.{PolicyTransport, fetch_policy_snapshot}
use monad_hackathon.Source.Fetch.Read.{IsRead, fetch_policy_snapshot-IsRead}
use monad_hackathon.Source.Fetch.Stages.{Stage, fetch_policy_snapshot-Stage_iff, is_read_code}

abbrev demo_snapshot : PolicySnapshot
unfolding fetch_policy_snapshot to_lower
demo_snapshot = elim (fetch_policy_snapshot (λ s. undefined) recipient demo_options demo_chain) [
  | inl p ↦ p
  | inr c ↦ demo_policy
]

fetch_run :
    fetch_policy_snapshot (λ s. undefined) recipient demo_options demo_chain ≡ inl demo_snapshot
unfolding fetch_policy_snapshot to_lower
fetch_run = refl

fetch_policy_snapshot-IsRead_example : IsRead demo_options demo_chain demo_snapshot
fetch_policy_snapshot-IsRead_example =
    fetch_policy_snapshot-IsRead (λ s. undefined) recipient demo_options demo_chain demo_snapshot
      fetch_run

-- The contract has no code.
abbrev dead_chain : PolicyTransport
dead_chain = record demo_chain { code = some (str "0x") }

stale_run : is_read_code policy_contract_stale_or_dead ≡ true
unfolding is_read_code
stale_run = refl

fetch_policy_snapshot-Stage_iff_example :
    (fetch_policy_snapshot (λ s. undefined) recipient demo_options dead_chain
      ≡ inr policy_contract_stale_or_dead)
    ↔ Stage dead_chain policy_contract_stale_or_dead
fetch_policy_snapshot-Stage_iff_example =
    fetch_policy_snapshot-Stage_iff (λ s. undefined) recipient demo_options dead_chain
      policy_contract_stale_or_dead stale_run

dead_run :
    fetch_policy_snapshot (λ s. undefined) recipient demo_options dead_chain
    ≡ inr policy_contract_stale_or_dead
unfolding fetch_policy_snapshot
dead_run = refl
