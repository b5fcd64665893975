-- ===== src/PolicyCache.antt =====
-- packages/coding-agent/src/policy-source/policyCache.js. The clock's reading is an argument.
pub mod Recent
mod Tests
use Prim.Native.String.{◌++◌ as ◌+++◌}
use monad_hackathon.Idempotency.{set_entry}
use monad_hackathon.Js.{decimal}
use monad_hackathon.Prelude.{
  List, Option, String, if◌then◌else◌, lookup, ltb, none, some, to_lower, ℕ, ◌-◌, ◌==◌,
}

-- What `keyOf` reads of a policy-source configuration.
pub record PolicyConfig : Type 0 where
  pub chain_id : ℕ
  pub policy_contract_address : String
  pub expected_schema_id : String

pub record Cached (S : Type 0) : Type 0 where
  pub snapshot : S
  pub created_at : ℕ

pub record PolicyCache (S : Type 0) : Type 0 where
  pub ttl_ms : ℕ
  pub entries : List (String × Cached S)

pub data Lookup (S : Type 0) : Type 0 where
  disabled miss stale : Lookup S
  hit : S → Lookup S

unfoldable pub cache_key : PolicyConfig → String
unfolding decimal to_lower
cache_key c =
    decimal c.chain_id
    +++ (":" +++ (to_lower c.policy_contract_address +++ (":" +++ to_lower c.expected_schema_id)))

module _ {S : Type 0} where
  -- The age test of a present entry.
  aged : ℕ → ℕ → Option (Cached S) → Lookup S
  aged ttl_ms now none = miss
  aged ttl_ms now (some e) = if ltb ttl_ms (now - e.created_at) then stale else hit e.snapshot

  unfoldable pub get_cached : ℕ → PolicyConfig → PolicyCache S → Lookup S
  unfolding aged
  get_cached now c cache =
      if cache.ttl_ms == 0
      then disabled
      else aged cache.ttl_ms now (lookup (cache_key c) cache.entries)

  unfoldable pub set_cached : ℕ → PolicyConfig → S → PolicyCache S → PolicyCache S
  unfolding set_entry
  set_cached now c snapshot cache = if cache.ttl_ms == 0 then cache else record cache {
    entries =
        set_entry (cache_key c) (record { snapshot = snapshot; created_at = now }) cache.entries;
  }
