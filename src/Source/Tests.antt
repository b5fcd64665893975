-- ===== src/Source/Tests.antt =====
-- Paged reads of concrete lists, a snapshot, and the theorems at them.
use monad_hackathon.Codes.{policy_frozen}
use monad_hackathon.Js.{Value, arr, bool, cons, end, field, nil, num, obj, str, undefined}
use monad_hackathon.Policy.{PolicySnapshot}
use monad_hackathon.Policy.Demo.{demo_policy}
use monad_hackathon.Prelude.{
  Bool, List, [], false, inl, inr, none, refl, some, to_lower, true, ℕ, ◌∷◌, ◌≡◌, ◌≢◌,
}
use monad_hackathon.Source.{PageFunction, no_fuel, pages, read_paged, stalled}
use monad_hackathon.Source.Paged.{honest, read_paged-ends, read_paged-honest}
use monad_hackathon.Source.Snapshot.{SnapshotOptions}
use monad_hackathon.Source.Snapshot.Validate.{normalize_policy_snapshot}

abbrev stuck : PageFunction ℕ
stuck cursor size = some (7 ∷ [], cursor)

-- A contract whose cursor stays is refused.
stuck_run : read_paged stuck 3 ≡ stalled
unfolding read_paged
stuck_run = refl

read_paged-ends_example : read_paged stuck 3 ≢ no_fuel
read_paged-ends_example = read_paged-ends stuck 3

abbrev entries : List ℕ
entries = 1 ∷ 2 ∷ 3 ∷ []

read_paged-honest_example : read_paged (honest entries) 3 ≡ pages entries
read_paged-honest_example = read_paged-honest entries

abbrev address : Value
address = str "0x00000000000000000000000000000000000000aA"

abbrev hash : Value
hash = str "0x00000000000000000000000000000000000000000000000000000000000000Ff"

abbrev options : SnapshotOptions
options = record { expected_schema_id = none; min_policy_version = 1; max_policy_version = none }

abbrev input : Bool → Value
input frozen = obj (
    field "source"
      (obj (
        field "chain_id" (num 10143) (
          field "deployment_chain_id" (num 10143) (
            field "contract_address" address
              (field "owner_address" address (field "schema_id" hash end))))))
      (field "policy_id" hash (
        field "policy_version" (str "3") (
          field "content_hash" hash (
            field "flags"
              (obj (
                field "block_unlimited_token_approvals" (bool true) (
                  field "require_simulation_for_writes" (bool true)
                    (field "frozen" (bool frozen) end))))
              (field "caps"
                (obj (
                  field "max_native_transfer_wei" (str "10") (
                    field "max_erc20_transfer_atomic" (str "10") (
                      field "max_gas_cost_wei" (str "10")
                        (field "max_fee_per_gas_wei" (str "10") end)))))
                (field "allowed_recipients" (arr (cons address nil)) end)))))))

-- A frozen policy is refused.
frozen_run : normalize_policy_snapshot (λ s. undefined) (input true) options ≡ inr policy_frozen
unfolding normalize_policy_snapshot to_lower
frozen_run = refl

abbrev valid_policy : PolicySnapshot
unfolding normalize_policy_snapshot to_lower
valid_policy = elim (normalize_policy_snapshot (λ s. undefined) (input false) options) [
  | inl p ↦ p
  | inr c ↦ demo_policy
]

valid_run : normalize_policy_snapshot (λ s. undefined) (input false) options ≡ inl valid_policy
unfolding normalize_policy_snapshot to_lower
valid_run = refl
