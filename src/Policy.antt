-- ===== src/Policy.antt =====
-- The policy that the package reads from the chain, as packages/coding-agent/src/policy-source/
-- policySnapshot.js returns it once it is validated. A canonical decimal text is its number.
pub mod Blocking
pub mod Checks
pub mod Demo
pub mod Evaluate
pub mod Permitted
pub mod Quiet
mod Tests
use monad_hackathon.Js.{Value}
use monad_hackathon.Prelude.{Bool, List, Option, String, ℕ}

pub record PolicySourceInfo : Type 0 where
  pub chain_id : ℕ
  pub network_name : Value
  pub contract_address : String
  pub schema_id : String
  pub deployment_chain_id : ℕ
  pub owner_address : String
  pub read_status : Value
  pub read_block_number : Option ℕ
  pub last_updated_block : Option ℕ

pub record PolicyFlags : Type 0 where
  pub block_unlimited_token_approvals : Bool
  pub allow_unknown_tools : Bool
  pub require_simulation_for_writes : Bool
  pub frozen : Bool

pub record PolicyCaps : Type 0 where
  pub max_native_transfer_wei : ℕ
  pub max_erc20_transfer_atomic : ℕ
  pub max_gas_cost_wei : ℕ
  pub max_fee_per_gas_wei : ℕ

pub record SpenderLimit : Type 0 where
  pub token : String
  pub spender : String
  pub max_amount_atomic : ℕ
  pub enabled : Bool

pub record TypedDataRule : Type 0 where
  pub domain_separator_hash : Option String
  pub verifying_contract : Option String
  pub primary_type_hash : Option String
  pub enabled : Bool

pub record PolicySnapshot : Type 0 where
  pub source : PolicySourceInfo
  pub policy_id : String
  pub policy_version : ℕ
  pub content_hash : String
  pub flags : PolicyFlags
  pub caps : PolicyCaps
  pub allowed_tool_keys : List String
  pub allowed_recipients : List String
  pub allowed_tokens : List String
  pub allowed_spenders : List SpenderLimit
  pub typed_data_rules : List TypedDataRule
