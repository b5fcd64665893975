-- ===== src/Policy/Demo.antt =====
-- A policy that lists two tools, and a call that it permits: data of the tests.
use monad_hackathon.Js.{Fields, end, field, num, str}
use monad_hackathon.Keccak.{tool_key}
use monad_hackathon.Policy.{PolicySnapshot}
use monad_hackathon.Prelude.{String, [], false, none, some, true, ◌∷◌}
use monad_hackathon.ToolSemantics.Registry.{get_balance}
use monad_hackathon.ToolSemantics.Resolver.{Visible}

abbrev pub addr : String
addr = "0x00000000000000000000000000000000000000aa"

abbrev pub demo_policy : PolicySnapshot
demo_policy = record {
  source = record {
    chain_id = 10143;
    network_name = str "Monad Testnet";
    contract_address = addr;
    schema_id = "0x1";
    deployment_chain_id = 10143;
    owner_address = addr;
    read_status = str "ok";
    read_block_number = some 7;
    last_updated_block = none;
  };
  policy_id = "0x2";
  policy_version = 1;
  content_hash = "0x3";
  flags = record {
    block_unlimited_token_approvals = true;
    allow_unknown_tools = false;
    require_simulation_for_writes = true;
    frozen = false;
  };
  caps = record {
    max_native_transfer_wei = 1000;
    max_erc20_transfer_atomic = 1000;
    max_gas_cost_wei = 50;
    max_fee_per_gas_wei = 5;
  };
  allowed_tool_keys = tool_key "get_balance" ∷ tool_key "send_transaction" ∷ [];
  allowed_recipients = addr ∷ [];
  allowed_tokens = addr ∷ [];
  allowed_spenders = [];
  typed_data_rules = [];
}

abbrev pub balance : Visible
balance = record {
  tool_name = some "get_balance";
  semantics = get_balance;
  matched_input_schema_hash = some get_balance.input_schema_hash;
}

abbrev pub balance_evidence : Fields
balance_evidence = field "chain_id" (num 10143) (
    field "chain_evidence" (str "10143")
      (field "sanitized_address_or_account_context" (str addr) end))
