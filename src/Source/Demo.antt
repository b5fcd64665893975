-- ===== src/Source/Demo.antt =====
-- A contract and its answers: data of the tests.
use monad_hackathon.Js.{str}
use monad_hackathon.Prelude.{List, String, [], false, none, some, true, ℕ, ◌∷◌}
use monad_hackathon.Source.Config.{default_schema_id}
use monad_hackathon.Source.Fetch.{PagedList, PolicyTransport}
use monad_hackathon.Source.Snapshot.{SnapshotOptions}

abbrev pub recipient : String
recipient = "0x00000000000000000000000000000000000000aA"

abbrev pub zero_hash : String
zero_hash = "0x00000000000000000000000000000000000000000000000000000000000000f1"

-- The key of send_transaction.
abbrev pub sending_key : String
sending_key = "0x83427d2bfd20cff280c206c9779035545297cda55c4d0ff78a5b27c80db08ef5"

-- One page with all entries.
abbrev pub listing : {A : Type 0} → List A → ℕ → PagedList A
listing xs n = record { count = some n; page = λ cursor size. some (xs, n) }

abbrev pub demo_chain : PolicyTransport
demo_chain = record {
  chain_id = some (str "0x279f");
  code = some (str "0x6001");
  identity = some (record {
    policy_id = zero_hash;
    version = 12;
    schema_id = default_schema_id;
    deployment_chain_id = 10143;
    content_hash = zero_hash;
    last_updated_block = 7;
    frozen = false;
  });
  owner = some recipient;
  caps = some (record {
    max_native_transfer_wei = 1000;
    max_erc20_transfer_atomic = 1000;
    max_gas_cost_wei = 50;
    max_fee_per_gas_wei = 5;
  });
  flags = some (record {
    block_unlimited_token_approvals = true;
    allow_unknown_tools = false;
    require_simulation_for_writes = true;
    frozen = false;
  });
  tools = listing (sending_key ∷ []) 1;
  recipients = listing (recipient ∷ []) 1;
  tokens = listing [] 0;
  spenders = listing [] 0;
  rules = listing [] 0;
  block_number = some (str "0x9");
}

abbrev pub demo_options : SnapshotOptions
demo_options = record {
  expected_schema_id = some default_schema_id;
  min_policy_version = 1;
  max_policy_version = none;
}
