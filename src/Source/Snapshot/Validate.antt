-- ===== src/Source/Snapshot/Validate.antt =====
-- `validatePolicySnapshot` and `normalizePolicySnapshot` of policySnapshot.js. A missing version counts
-- as 0, as it does in the source where the versions are compared.
use Prim.Native.String.{◌++◌ as ◌+++◌}
use monad_hackathon.Codes.{
  Code, policy_frozen, policy_rpc_chain_mismatch, policy_schema_invalid, policy_version_unsupported,
}
use monad_hackathon.Js.{Value}
use monad_hackathon.Js.Numbers.{is_num}
use monad_hackathon.Policy.{PolicyFlags, PolicySnapshot, SpenderLimit}
use monad_hackathon.Prelude.{
  Bool, List, Option, String, [], any, false, inl, inr, length, ltb, map, none, not, some, str_eq,
  suc, to_lower, true, zero, ℕ, ◌&&◌, ◌==◌, ◌||◌, ◌∷◌, ◌⊎◌,
}
use monad_hackathon.Source.Snapshot.{
  RawLists, RawSnapshot, RawSpender, SnapshotOptions, raw_of, unique,
}

abbrev pub Checked : Type 0
Checked = PolicySnapshot ⊎ Code

-- The tests in order, each with the code of its `return fail(code, …)`.
unfoldable pub first_failure : List (Bool × Code) → Checked → Checked
first_failure [] passed = passed
first_failure ((true, c) ∷ tests) passed = inr c
first_failure ((false, c) ∷ tests) passed = first_failure tests passed

abbrev pub is_absent {ℓ} : {A : Type ℓ} → Option A → Bool
is_absent none = true
is_absent (some a) = false

abbrev pub or_empty : Option String → String
or_empty none = ""
or_empty (some s) = s

abbrev pub number_or : Option ℕ → ℕ
number_or none = 0
number_or (some n) = n

-- `expected && schema_id !== expected.toLowerCase()`
unfoldable pub schema_differs : Option String → Option String → Bool
unfolding to_lower
schema_differs none schema_id = false
schema_differs (some expected) schema_id =
    not (str_eq expected "") && not (str_eq (or_empty schema_id) (to_lower expected))

unfoldable pub above : Option ℕ → ℕ → Bool
above none version = false
above (some most) version = not (most == 0) && ltb most version

-- LIMITS
unfoldable pub over_bound : RawLists → Bool
over_bound l =
    ltb 64 (length l.tool_keys)
    || (ltb 256 (length l.recipients)
        || (ltb 128 (length l.tokens) || (ltb 256 (length l.spenders) || ltb 64 (length l.rules))))

unfoldable pub bad_entry : RawLists → Bool
bad_entry l = any is_absent l.tool_keys || (any is_absent l.recipients || any is_absent l.tokens)

unfoldable pub duplicated : RawLists → Bool
unfolding unique
duplicated l =
    not (unique (map or_empty l.tool_keys))
    || (not (unique (map or_empty l.recipients)) || not (unique (map or_empty l.tokens)))

null_text : Option String → String
null_text none = "null"
null_text (some s) = s

spender_key : RawSpender → String
unfolding null_text
spender_key e = null_text e.token +++ (":" +++ null_text e.spender)

is_bad : RawSpender → Bool
is_bad e = is_absent e.token || (is_absent e.spender || is_absent e.max_amount_atomic)

unfoldable pub bad_spender : List RawSpender → Bool
unfolding unique spender_key is_bad
bad_spender spenders = not (unique (map spender_key spenders)) || any is_bad spenders

unfoldable pub limit_of : RawSpender → SpenderLimit
limit_of e = record {
  token = or_empty e.token;
  spender = or_empty e.spender;
  max_amount_atomic = number_or e.max_amount_atomic;
  enabled = e.enabled;
}

unfoldable pub cap_at : ℕ → List (Option ℕ) → ℕ
cap_at n [] = 0
cap_at zero (c ∷ cs) = number_or c
cap_at (suc n) (c ∷ cs) = cap_at n cs

-- The snapshot that is returned: nothing that the checks ask for is null in it.
unfoldable pub built : RawSnapshot → PolicySnapshot
unfolding cap_at limit_of
built r = record {
  source = record {
    chain_id = 10143;
    network_name = r.network_name;
    contract_address = or_empty r.contract_address;
    schema_id = or_empty r.schema_id;
    deployment_chain_id = 10143;
    owner_address = or_empty r.owner_address;
    read_status = r.read_status;
    read_block_number = r.read_block_number;
    last_updated_block = r.last_updated_block;
  };
  policy_id = or_empty r.policy_id;
  policy_version = number_or r.policy_version;
  content_hash = or_empty r.content_hash;
  flags = r.flags;
  caps = record {
    max_native_transfer_wei = cap_at 0 r.caps;
    max_erc20_transfer_atomic = cap_at 1 r.caps;
    max_gas_cost_wei = cap_at 2 r.caps;
    max_fee_per_gas_wei = cap_at 3 r.caps;
  };
  allowed_tool_keys = map or_empty r.lists.tool_keys;
  allowed_recipients = map or_empty r.lists.recipients;
  allowed_tokens = map or_empty r.lists.tokens;
  allowed_spenders = map limit_of r.lists.spenders;
  typed_data_rules = r.lists.rules;
}

unfoldable pub missing_identity : RawSnapshot → Bool
missing_identity r =
    is_absent r.contract_address
    || (is_absent r.owner_address
        || (is_absent r.schema_id || (is_absent r.policy_id || is_absent r.content_hash)))

unfoldable pub unsafe_flags : PolicyFlags → Bool
unsafe_flags f =
    not f.block_unlimited_token_approvals
    || (f.allow_unknown_tools || not f.require_simulation_for_writes)

unfoldable pub failures : RawSnapshot → SnapshotOptions → List (Bool × Code)
unfolding is_num missing_identity schema_differs above unsafe_flags over_bound bad_entry duplicated
    bad_spender
failures r options =
    (
      not (is_num 10143 r.chain_id) || not (is_num 10143 r.deployment_chain_id),
      policy_rpc_chain_mismatch,
    )
    ∷ (missing_identity r, policy_schema_invalid)
    ∷ (schema_differs options.expected_schema_id r.schema_id, policy_schema_invalid)
    ∷ (
      ltb (number_or r.policy_version) options.min_policy_version
          || above options.max_policy_version (number_or r.policy_version),
      policy_version_unsupported,
    )
    ∷ (r.flags.frozen, policy_frozen)
    ∷ (unsafe_flags r.flags, policy_schema_invalid)
    ∷ (any is_absent r.caps, policy_schema_invalid)
    ∷ (over_bound r.lists, policy_schema_invalid)
    ∷ (bad_entry r.lists, policy_schema_invalid)
    ∷ (duplicated r.lists, policy_schema_invalid)
    ∷ (bad_spender r.lists.spenders, policy_schema_invalid)
    ∷ []

unfoldable pub validate_policy_snapshot : RawSnapshot → SnapshotOptions → Checked
unfolding first_failure failures built
validate_policy_snapshot r options = first_failure (failures r options) (inl (built r))

unfoldable pub validate_raw : Option RawSnapshot → SnapshotOptions → Checked
unfolding validate_policy_snapshot
validate_raw none options = inr policy_schema_invalid
validate_raw (some r) options = validate_policy_snapshot r options

unfoldable pub normalize_policy_snapshot : (String → Value) → Value → SnapshotOptions → Checked
unfolding raw_of validate_raw
normalize_policy_snapshot number_of_text input options =
    validate_raw (raw_of number_of_text input options) options
