-- ===== src/Source/Config.antt =====
-- packages/coding-agent/src/policy-source/policySourceConfig.js. `artifact` is what the JSON of the
-- deployment's file gives, the same two values in an object, `end` where there is no path or the file
-- cannot be read or parsed.
use Prim.Native.Char.{code}
use monad_hackathon.Codes.{Code, policy_source_binding_invalid}
use monad_hackathon.Js.{
  Fields, Items, Value, arr, cons, end, field, get, nil, num, obj, or_else, present, str, to_text,
  truthy, undefined,
}
use monad_hackathon.Js.BigInt.{big_int, negsuc, pos, ℤ}
use monad_hackathon.Js.Numbers.{is_num, to_number}
use monad_hackathon.Js.Spaces.{trim}
use monad_hackathon.Prelude.{
  Bool, List, Option, String, [], filter, if◌then◌else◌, inl, inr, lookup, map, none, not, some,
  str_eq, ℕ, ◌==◌, ◌||◌, ◌∷◌, ◌⊎◌,
}
use monad_hackathon.Source.Snapshot.{SnapshotOptions, sized_hex}

abbrev pub default_schema_id : String
default_schema_id = "0xbff749158587599401933b69539ef72bfaebb403678a1d1db445a6e9a3bac599"

-- `String(value).split(',')`; the first text is what stands before the next comma.
split_from : String → String × List String
split_from String.[] = ("", [])
split_from (String.◌∷◌ c s) =
    let (word, words) = split_from s in
    if code c == 44 then ("", word ∷ words) else (String.◌∷◌ c word, words)

filled : String → Bool
filled s = not (str_eq s "")

split_texts : String → List String
unfolding split_from trim filled
split_texts s = let (word, words) = split_from s in filter filled (map trim (word ∷ words))

truthy_items : Items → List Value
unfolding truthy
truthy_items nil = []
truthy_items (cons v vs) = if truthy v then v ∷ truthy_items vs else truthy_items vs

-- `splitList`
unfoldable pub split_list : Value → List Value
unfolding truthy truthy_items split_texts to_text
split_list (arr items) = truthy_items items
split_list v = if not (truthy v) then [] else map str (split_texts (to_text v))

pub record PolicySourceConfig : Type 0 where
  pub chain_id : Value
  pub network_name : Value
  pub rpc_url : Value
  pub rpc_fallback_urls : List Value
  pub policy_contract_address : Value
  pub expected_schema_id : Value
  pub min_policy_version : String
  pub max_policy_version : Option String
  pub read_timeout_ms : Value
  pub retry_count_per_rpc : Value
  pub retry_backoff_ms : Value
  pub cache_ttl_ms : Value

-- `parsed.contract && parsed.contract.address` of an object, and the chain's id.
unfoldable pub load_artifact : Fields → Fields
unfolding get truthy
load_artifact json =
    field "policy_contract_address" (under "contract" "address" json)
      (field "chain_id" (under "network" "chain_id" json) end)
  where
    under : String → String → Fields → Value
    under outer inner fs = elim (get outer fs) [
      | obj gs ↦ get inner gs
      | v ↦ if truthy v then undefined else v
    ]

optional_text : Value → Option String
unfolding present to_text
optional_text v = if present v then some (to_text v) else none

-- `ADDRESS_RE.test(v || '')`
unfoldable pub is_address : Value → Bool
unfolding or_else sized_hex to_text
is_address v = sized_hex 40 (to_text (or_else v (str "")))

env_value : String → List (String × String) → Value
env_value k env = elim (lookup k env) [ none ↦ undefined | some s ↦ str s ]

module _ (number_of_text : String → Value) (artifact : Fields) where
  unfoldable pub config_of : Fields → List (String × String) → PolicySourceConfig
  unfolding or_else get to_number to_text present split_list env_value optional_text
  config_of input env =
      let given : String → Value = λ k. get k input in
      let numbered : Value → Value = λ v. to_number number_of_text v in
      let variable : String → Value = λ k. env_value k env in
      record {
        chain_id =
            numbered (or_else (or_else (given "chain_id") (get "chain_id" artifact)) (num 10143));
        network_name = or_else (given "network_name") (str "Monad Testnet");
        rpc_url =
            or_else (or_else (given "rpc_url") (variable "COMPASS_POLICY_RPC_URL"))
              (variable "MONAD_RPC_URL");
        rpc_fallback_urls =
            split_list
              (or_else (given "rpc_fallback_urls") (variable "COMPASS_POLICY_RPC_FALLBACK_URLS"));
        policy_contract_address =
            or_else
              (or_else (given "policy_contract_address") (get "policy_contract_address" artifact))
              (variable "COMPASS_POLICY_CONTRACT_ADDRESS");
        expected_schema_id = or_else (given "expected_schema_id") (str default_schema_id);
        min_policy_version = to_text (or_else (given "min_policy_version") (str "1"));
        max_policy_version = optional_text (given "max_policy_version");
        read_timeout_ms = numbered (or_else (given "read_timeout_ms") (num 3000));
        retry_count_per_rpc =
            numbered (
              if present (given "retry_count_per_rpc") then given "retry_count_per_rpc" else num 1);
        retry_backoff_ms = numbered (or_else (given "retry_backoff_ms") (num 250));
        cache_ttl_ms = numbered (or_else (given "cache_ttl_ms") (num 0));
      }

  unfoldable pub create_policy_source_config :
      Fields → List (String × String) → PolicySourceConfig ⊎ Code
  unfolding config_of is_num is_address truthy
  create_policy_source_config input env =
      let config = config_of input env in
      if not (is_num 10143 config.chain_id)
        || not (is_address config.policy_contract_address)
        || not (truthy config.rpc_url)
      then inr policy_source_binding_invalid
      else inl config

natural_of : Option ℤ → Option ℕ
natural_of none = none
natural_of (some (pos n)) = some n
natural_of (some (negsuc n)) = none

abbrev two : Option ℕ → Option (Option ℕ) → Value → Option SnapshotOptions
two (some least) (some most) (str s) =
    some (record {
      expected_schema_id = some s;
      min_policy_version = least;
      max_policy_version = most;
    })
two least most v = none

most_of : Option String → Option (Option ℕ)
unfolding natural_of big_int
most_of none = some none
most_of (some s) = elim (natural_of (big_int s)) [ none ↦ none | some n ↦ some (some n) ]

-- The versions and the schema as the validation of a snapshot reads them; `none` where a version is not
-- a natural or the schema no text.
unfoldable pub snapshot_options : PolicySourceConfig → Option SnapshotOptions
unfolding natural_of most_of big_int
snapshot_options config =
    two (natural_of (big_int config.min_policy_version)) (most_of config.max_policy_version)
      config.expected_schema_id
