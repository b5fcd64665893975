-- ===== src/Source/Snapshot.antt =====
-- packages/coding-agent/src/policy-source/policySnapshot.js. The options' versions are numbers, and
-- `none` is a result that the source reaches by an exception.
pub mod Validate
pub mod Valid
pub mod Parts
use Prim.Native.Char.{code}
use monad_hackathon.Js.{
  Items, Value, arr, cons, get, nil, num, obj, or_else, present, str, truthy, undefined,
}
use monad_hackathon.Js.Numbers.{canonical_decimal, to_number}
use monad_hackathon.Policy.{PolicyFlags, TypedDataRule}
use monad_hackathon.Prelude.{
  Bool, List, Option, String, [], all, false, if◌then◌else◌, includes, map, none, not, some,
  to_lower, true, ℕ, ◌&&◌, ◌==◌, ◌∷◌,
}
use monad_hackathon.Redaction.{hex_run}

pub record SnapshotOptions : Type 0 where
  pub expected_schema_id : Option String
  pub min_policy_version : ℕ
  pub max_policy_version : Option ℕ

-- 0x and as many hexadecimal digits as the number: HASH_RE and ADDRESS_RE.
unfoldable pub sized_hex : ℕ → String → Bool
unfolding hex_run
sized_hex n (String.◌∷◌ c (String.◌∷◌ d s)) = code c == 48 && (code d == 120 && hex_run n s)
sized_hex n _ = false

unfoldable pub lower_sized : ℕ → Value → Option String
unfolding sized_hex to_lower
lower_sized n (str s) = if sized_hex n s then some (to_lower s) else none
lower_sized n v = none

unfoldable pub lower_address : Value → Option String
unfolding lower_sized
lower_address v = lower_sized 40 v

unfoldable pub lower_hash : Value → Option String
unfolding lower_sized
lower_hash v = lower_sized 64 v

-- The number that the decimal text stands for.
unfoldable pub decimal_string : Value → Option ℕ
unfolding canonical_decimal
decimal_string (num n) = some n
decimal_string (str s) = canonical_decimal s
decimal_string v = none

-- `v && v.name`, and `v.name` of a value that is neither null nor undefined.
abbrev pub prop : String → Value → Value
prop name (obj fs) = get name fs
prop name v = undefined

unfoldable pub unique : List String → Bool
unique [] = true
unique (x ∷ xs) = not (includes xs x) && unique xs

unfoldable pub item_values : Items → List Value
item_values nil = []
item_values (cons v vs) = v ∷ item_values vs

-- `(v || [])` as something that has `map`, else `none`.
unfoldable pub list_of : Value → Option (List Value)
unfolding truthy item_values
list_of (arr xs) = some (item_values xs)
list_of v = if truthy v then none else some []

pub record RawSpender : Type 0 where
  pub token : Option String
  pub spender : Option String
  pub max_amount_atomic : Option ℕ
  pub enabled : Bool

unfoldable pub spender_of : Value → RawSpender
unfolding lower_address decimal_string truthy get
spender_of entry = record {
  token = lower_address (prop "token" entry);
  spender = lower_address (prop "spender" entry);
  max_amount_atomic = decimal_string (prop "max_amount_atomic" entry);
  enabled = truthy (prop "enabled" entry);
}

unfoldable pub rule_of : Value → TypedDataRule
unfolding lower_hash lower_address truthy get
rule_of entry = record {
  domain_separator_hash = lower_hash (prop "domain_separator_hash" entry);
  verifying_contract = lower_address (prop "verifying_contract" entry);
  primary_type_hash = lower_hash (prop "primary_type_hash" entry);
  enabled = truthy (prop "enabled" entry);
}

-- The lists of a policy, as they are read.
pub record RawLists : Type 0 where
  pub tool_keys : List (Option String)
  pub recipients : List (Option String)
  pub tokens : List (Option String)
  pub spenders : List RawSpender
  pub rules : List TypedDataRule

-- A property of null or undefined throws.
abbrev pub all_present : List Value → Bool
all_present vs = all present vs

infixl 10 ◌>>=◌
abbrev ◌>>=◌ : {A B : Type 0} → Option A → (A → Option B) → Option B
none >>= f = none
some a >>= f = f a

unfoldable pub lists_of :
    List Value → List Value → List Value → List Value → List Value → Option RawLists
unfolding lower_hash lower_address spender_of rule_of present
lists_of tools recipients tokens spenders rules =
    if all_present spenders && all_present rules
    then some (record {
      tool_keys = map lower_hash tools;
      recipients = map lower_address recipients;
      tokens = map lower_address tokens;
      spenders = map spender_of spenders;
      rules = map rule_of rules;
    })
    else none

unfoldable pub read_lists : Value → Option RawLists
unfolding list_of lists_of get
read_lists input = do
  tools ← list_of (prop "allowed_tool_keys" input)
  recipients ← list_of (prop "allowed_recipients" input)
  tokens ← list_of (prop "allowed_tokens" input)
  spenders ← list_of (prop "allowed_spenders" input)
  rules ← list_of (prop "typed_data_rules" input)
  lists_of tools recipients tokens spenders rules

pub record RawSnapshot : Type 0 where
  pub chain_id : Value
  pub deployment_chain_id : Value
  pub network_name : Value
  pub read_status : Value
  pub contract_address : Option String
  pub owner_address : Option String
  pub schema_id : Option String
  pub read_block_number : Option ℕ
  pub last_updated_block : Option ℕ
  pub policy_id : Option String
  pub policy_version : Option ℕ
  pub content_hash : Option String
  pub flags : PolicyFlags
  pub caps : List (Option ℕ)
  pub lists : RawLists

-- `Boolean(input.flags && input.flags.name)` of each flag.
unfoldable pub flags_of : Value → PolicyFlags
unfolding truthy get
flags_of flags = record {
  block_unlimited_token_approvals = truthy (prop "block_unlimited_token_approvals" flags);
  allow_unknown_tools = truthy (prop "allow_unknown_tools" flags);
  require_simulation_for_writes = truthy (prop "require_simulation_for_writes" flags);
  frozen = truthy (prop "frozen" flags);
}

-- The caps in the order of PolicyCaps.
unfoldable pub caps_of : Value → List (Option ℕ)
unfolding decimal_string get
caps_of caps =
    decimal_string (prop "max_native_transfer_wei" caps)
    ∷ decimal_string (prop "max_erc20_transfer_atomic" caps)
    ∷ decimal_string (prop "max_gas_cost_wei" caps)
    ∷ decimal_string (prop "max_fee_per_gas_wei" caps)
    ∷ []

text_value : Option String → Value
text_value none = undefined
text_value (some s) = str s

-- The snapshot before it is validated; an input that is null or undefined throws.
unfoldable pub raw_of : (String → Value) → Value → SnapshotOptions → Option RawSnapshot
unfolding read_lists to_number or_else lower_address lower_hash decimal_string flags_of caps_of
    text_value present get
raw_of number_of_text input options =
    let given = prop "source" input in
    let numbered : String → Value = λ name. to_number number_of_text (prop name given) in
    if not (present input)
    then none
    else read_lists input >>= λ lists. some (record {
      chain_id = numbered "chain_id";
      deployment_chain_id = numbered "deployment_chain_id";
      network_name = or_else (prop "network_name" given) (str "Monad Testnet");
      read_status = or_else (prop "read_status" given) (str "success");
      contract_address = lower_address (prop "contract_address" given);
      owner_address = lower_address (prop "owner_address" given);
      schema_id = lower_hash (
          or_else (or_else (prop "schema_id" given) (prop "schema_id" input))
            (text_value options.expected_schema_id));
      read_block_number = decimal_string (or_else (prop "read_block_number" given) (str "0"));
      last_updated_block = decimal_string (or_else (prop "last_updated_block" given) (str "0"));
      policy_id = lower_hash (prop "policy_id" input);
      policy_version = decimal_string (prop "policy_version" input);
      content_hash = lower_hash (prop "content_hash" input);
      flags = flags_of (prop "flags" input);
      caps = caps_of (prop "caps" input);
      lists = lists;
    })
