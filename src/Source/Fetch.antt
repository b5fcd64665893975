-- ===== src/Source/Fetch.antt =====
-- `fetchPolicySnapshot` of packages/coding-agent/src/policy-source/policyContractClient.js. The
-- transport is what each read answers, `none` where it throws; an answer of the contract is decoded by
-- its ABI (compassPolicyAbi.js), so its numbers are naturals, and an entry of a list of structures is
-- an object with the names of the ABI.
pub mod Read
pub mod Stages
mod Tests
use Prim.Native.Char.{code}
use monad_hackathon.Codes.{
  policy_abi_decode_failed, policy_contract_stale_or_dead, policy_rpc_chain_mismatch,
  policy_rpc_read_failed,
}
use monad_hackathon.Js.{
  Items, Value, arr, bool, cons, decimal, end, field, nil, num, obj, str, to_text, truthy,
}
use monad_hackathon.Js.BigInt.{decimal_text, parse_int_16, pos, ℤ}
use monad_hackathon.Policy.{PolicyFlags}
use monad_hackathon.Prelude.{
  Bool, List, Option, String, [], false, if◌then◌else◌, inr, none, not, some, str_eq, ℕ, ◌==◌, ◌||◌,
  ◌∷◌,
}
use monad_hackathon.Source.{PageFunction, Paging, pages, read_paged}
use monad_hackathon.Source.Snapshot.{SnapshotOptions}
use monad_hackathon.Source.Snapshot.Validate.{Checked, normalize_policy_snapshot}

pub record Identity : Type 0 where
  pub policy_id : String
  pub version : ℕ
  pub schema_id : String
  pub deployment_chain_id : ℕ
  pub content_hash : String
  pub last_updated_block : ℕ
  pub frozen : Bool

pub record CapsAnswer : Type 0 where
  pub max_native_transfer_wei : ℕ
  pub max_erc20_transfer_atomic : ℕ
  pub max_gas_cost_wei : ℕ
  pub max_fee_per_gas_wei : ℕ

pub record SpenderEntry : Type 0 where
  pub token : String
  pub spender : String
  pub max_amount_atomic : ℕ
  pub enabled : Bool

pub record RuleEntry : Type 0 where
  pub domain_separator_hash : String
  pub verifying_contract : String
  pub primary_type_hash : String
  pub enabled : Bool

-- A list of the contract: its count, and its page function.
pub record PagedList (A : Type 0) : Type 0 where
  pub count : Option ℕ
  pub page : PageFunction A

-- The answers to `request` (eth_chainId, eth_getCode, eth_blockNumber) and to `readContract`.
pub record PolicyTransport : Type 0 where
  pub chain_id : Option Value
  pub code : Option Value
  pub identity : Option Identity
  pub owner : Option String
  pub caps : Option CapsAnswer
  pub flags : Option PolicyFlags
  pub tools : PagedList String
  pub recipients : PagedList String
  pub tokens : PagedList String
  pub spenders : PagedList SpenderEntry
  pub rules : PagedList RuleEntry
  pub block_number : Option Value

pub record Answers : Type 0 where
  pub identity : Identity
  pub owner : String
  pub caps : CapsAnswer
  pub flags : PolicyFlags
  pub tools : List String
  pub recipients : List String
  pub tokens : List String
  pub spenders : List SpenderEntry
  pub rules : List RuleEntry

-- `isEmptyCode`
unfoldable pub is_empty_code : Value → Bool
unfolding truthy
is_empty_code (str s) = str_eq s "" || str_eq s "0x" || str_eq s "0X"
is_empty_code v = not (truthy v)

unfoldable pub values_of : {A : Type 0} → Paging A → Option (List A)
values_of (pages values) = some values
values_of other = none

unfoldable pub read_all : {A : Type 0} → PagedList A → Option (List A)
unfolding values_of read_paged
read_all l = elim l.count [ none ↦ none | some total ↦ values_of (read_paged l.page total) ]

infixl 10 ◌>>=◌
abbrev ◌>>=◌ : {A B : Type 0} → Option A → (A → Option B) → Option B
none >>= f = none
some a >>= f = f a

-- The reads in the `try`, in order; the lists are read together, and none may fail.
unfoldable pub read_answers : PolicyTransport → Option Answers
unfolding read_all
read_answers t = do
  identity ← t.identity
  owner ← t.owner
  caps ← t.caps
  flags ← t.flags
  tools ← read_all t.tools
  recipients ← read_all t.recipients
  tokens ← read_all t.tokens
  spenders ← read_all t.spenders
  rules ← read_all t.rules
  some (record {
    identity = identity;
    owner = owner;
    caps = caps;
    flags = flags;
    tools = tools;
    recipients = recipients;
    tokens = tokens;
    spenders = spenders;
    rules = rules;
  })

-- `String(Number.parseInt(value, 16))`
integer_text : Option ℤ → String
unfolding decimal_text
integer_text none = "NaN"
integer_text (some z) = decimal_text z

-- The number of the block, or '0' where it cannot be read.
unfoldable pub block_text : Option Value → String
unfolding integer_text parse_int_16 to_text
block_text none = "0"
block_text (some v) = integer_text (parse_int_16 (to_text v))

-- `asDecimal`
unfoldable pub as_decimal : ℕ → Value
unfolding decimal
as_decimal n = str (decimal n)

unfoldable pub items_of : {A : Type 0} → (A → Value) → List A → Items
items_of f [] = nil
items_of f (x ∷ xs) = cons (f x) (items_of f xs)

spender_value : SpenderEntry → Value
unfolding as_decimal
spender_value e = obj (
    field "token" (str e.token) (
      field "spender" (str e.spender) (
        field "max_amount_atomic" (as_decimal e.max_amount_atomic)
          (field "enabled" (bool e.enabled) end))))

rule_value : RuleEntry → Value
rule_value e = obj (
    field "domain_separator_hash" (str e.domain_separator_hash) (
      field "verifying_contract" (str e.verifying_contract) (
        field "primary_type_hash" (str e.primary_type_hash)
          (field "enabled" (bool e.enabled) end))))

unfoldable pub source_value : String → String → Answers → Value
unfolding as_decimal
source_value address block a = obj (
    field "chain_id" (num 10143) (
      field "network_name" (str "Monad Testnet") (
        field "contract_address" (str address) (
          field "schema_id" (str a.identity.schema_id) (
            field "deployment_chain_id" (num a.identity.deployment_chain_id) (
              field "owner_address" (str a.owner) (
                field "read_status" (str "success") (
                  field "read_block_number" (str block) (
                    field "last_updated_block" (as_decimal a.identity.last_updated_block)
                      end)))))))))

unfoldable pub flags_object : Identity → PolicyFlags → Value
flags_object i f = obj (
    field "block_unlimited_token_approvals" (bool f.block_unlimited_token_approvals) (
      field "allow_unknown_tools" (bool f.allow_unknown_tools) (
        field "require_simulation_for_writes" (bool f.require_simulation_for_writes)
          (field "frozen" (bool (i.frozen || f.frozen)) end))))

unfoldable pub caps_object : CapsAnswer → Value
unfolding as_decimal
caps_object c = obj (
    field "max_native_transfer_wei" (as_decimal c.max_native_transfer_wei) (
      field "max_erc20_transfer_atomic" (as_decimal c.max_erc20_transfer_atomic) (
        field "max_gas_cost_wei" (as_decimal c.max_gas_cost_wei)
          (field "max_fee_per_gas_wei" (as_decimal c.max_fee_per_gas_wei) end))))

-- `raw`
unfoldable pub raw_value : String → String → Answers → Value
unfolding source_value flags_object caps_object spender_value rule_value as_decimal items_of
raw_value address block a = obj (
    field "source" (source_value address block a) (
      field "policy_id" (str a.identity.policy_id) (
        field "policy_version" (as_decimal a.identity.version) (
          field "content_hash" (str a.identity.content_hash) (
            field "flags" (flags_object a.identity a.flags) (
              field "caps" (caps_object a.caps) (
                field "allowed_tool_keys" (arr (items_of str a.tools)) (
                  field "allowed_recipients" (arr (items_of str a.recipients)) (
                    field "allowed_tokens" (arr (items_of str a.tokens)) (
                      field "allowed_spenders" (arr (items_of spender_value a.spenders))
                        (field "typed_data_rules" (arr (items_of rule_value a.rules)) end)))))))))))

-- `Number.parseInt(value, 16) === 10143`
unfoldable pub is_monad_testnet : Value → Bool
unfolding parse_int_16 to_text
is_monad_testnet v = elim (parse_int_16 (to_text v)) [ some (pos n) ↦ n == 10143 | _ ↦ false ]

module _ (number_of_text : String → Value) (address : String) (options : SnapshotOptions) where
  unfoldable pub after_reads : String → Option Answers → Checked
  unfolding raw_value normalize_policy_snapshot
  after_reads block none = inr policy_abi_decode_failed
  after_reads block (some a) =
      normalize_policy_snapshot number_of_text (raw_value address block a) options

  unfoldable pub after_code : PolicyTransport → Option Value → Checked
  unfolding after_reads is_empty_code read_answers block_text
  after_code t none = inr policy_rpc_read_failed
  after_code t (some code) =
      if is_empty_code code
      then inr policy_contract_stale_or_dead
      else after_reads (block_text t.block_number) (read_answers t)

  unfoldable pub after_chain : PolicyTransport → Option Value → Checked
  unfolding after_code is_monad_testnet
  after_chain t none = inr policy_rpc_read_failed
  after_chain t (some chain) =
      if not (is_monad_testnet chain) then inr policy_rpc_chain_mismatch else after_code t t.code

  -- `fetchPolicySnapshot`, with a transport.
  unfoldable pub fetch_policy_snapshot : PolicyTransport → Checked
  unfolding after_chain
  fetch_policy_snapshot t = after_chain t t.chain_id
