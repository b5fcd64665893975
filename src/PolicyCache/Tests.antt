-- ===== src/PolicyCache/Tests.antt =====
-- The theorems about the cache at a concrete configuration.
use monad_hackathon.PolicyCache.{PolicyCache, PolicyConfig, cache_key, get_cached, hit, set_cached}
use monad_hackathon.PolicyCache.Recent.{IsRecent, Write, hit-IsRecent, write_all}
use monad_hackathon.Prelude.{In, String, [], refl, ◌∷◌, ◌≡◌}

abbrev config : PolicyConfig
config = record { chain_id = 10143; policy_contract_address = "0xAB"; expected_schema_id = "0x01" }

abbrev same_config : PolicyConfig
same_config = record {
  chain_id = 10143;
  policy_contract_address = "0xab";
  expected_schema_id = "0x01";
}

abbrev empty : PolicyCache String
empty = record { ttl_ms = 1000; entries = [] }

abbrev write : Write String
write = record { at = 5; config = config; snapshot = "policy" }

-- The case of the address makes no difference to the key.
hit_run : get_cached 9 same_config (write_all (write ∷ []) empty) ≡ hit "policy"
unfolding get_cached set_cached cache_key
hit_run = refl

hit-IsRecent_example :
    (w : Write String) × In w (write ∷ []) × IsRecent 1000 9 same_config "policy" w
hit-IsRecent_example = hit-IsRecent 9 same_config "policy" (write ∷ []) 1000 hit_run
