-- ===== src/Digest.antt =====
-- packages/coding-agent/src/digest/candidateTxDigest.js. `Value` has no bigints.
pub mod Covered
mod Tests
use Prim.Native.String.{◌++◌ as ◌+++◌}
use Prim.Native.Char.{code}
use monad_hackathon.Js.{
  Fields, Items, Value, arr, cons, end, field, get, nil, obj, present, str, undefined,
}
use monad_hackathon.Js.Json.{comma, insert_key, join_fields, scalar_json}
use monad_hackathon.Keccak.{keccak256}
use monad_hackathon.Prelude.{
  Bool, List, String, [], false, if◌then◌else◌, to_lower, true, ◌&&◌, ◌==◌, ◌∷◌,
}
use monad_hackathon.Redaction.{is_hex_code}

-- DIGEST_VERSION
abbrev pub digest_version : String
digest_version = "compass-candidate-v1"

-- DIGEST_FIELDS
abbrev pub digest_fields : List String
digest_fields =
    "chain_id" ∷ "account" ∷ "to" ∷ "value" ∷ "data" ∷ "tool_name" ∷ "args" ∷ "token" ∷ "spender"
    ∷ "amount" ∷ "max_fee_per_gas_wei" ∷ "max_priority_fee_per_gas_wei" ∷ "gas_limit"
    ∷ "estimated_gas_cost_wei" ∷ []

-- `canonicalJson(value)`: keys sorted at every depth, no spaces, undefined as null.
unfoldable mutual
  unfolding scalar_json comma insert_key join_fields

  pub candidate_json : Value → String
  candidate_json undefined = "null"
  candidate_json (arr xs) = "[" +++ (candidate_items xs +++ "]")
  candidate_json (obj fs) = "{" +++ (join_fields (candidate_entries fs) +++ "}")
  candidate_json v = scalar_json v

  pub candidate_items : Items → String
  candidate_items nil = ""
  candidate_items (cons v vs) = comma (candidate_json v) (candidate_items vs)

  pub candidate_entries : Fields → List (String × String)
  candidate_entries end = []
  candidate_entries (field k v fs) = insert_key k (candidate_json v) (candidate_entries fs)

unfoldable pub hex_digits_only : String → Bool
hex_digits_only String.[] = true
hex_digits_only (String.◌∷◌ c s) = is_hex_code (code c) && hex_digits_only s

-- `/^0x[0-9a-fA-F]+$/.test(value)`
unfoldable pub is_hex : String → Bool
unfolding hex_digits_only
is_hex (String.◌∷◌ c (String.◌∷◌ d (String.◌∷◌ e s))) =
    code c == 48 && (code d == 120 && hex_digits_only (String.◌∷◌ e s))
is_hex _ = false

unfoldable pub stable : Value → Value
unfolding is_hex
stable (str s) = if is_hex s then str (to_lower s) else str s
stable v = v

-- The loop over the fields: `ordered`.
unfoldable pub ordered : List String → Fields → Fields
unfolding get present stable
ordered [] input = end
ordered (name ∷ names) input =
    let rest = ordered names input in
    if present (get name input) then field name (stable (get name input)) rest else rest

-- The loop over the fields: `covered`.
unfoldable pub covered : List String → Fields → List String
unfolding get present
covered [] input = []
covered (name ∷ names) input =
    let rest = covered names input in if present (get name input) then name ∷ rest else rest

pub record CandidateDigest : Type 0 where
  pub digest : String
  pub covered_fields : List String

unfoldable pub payload : Fields → String
unfolding candidate_json ordered
payload input = candidate_json (
    obj (
      field "digest_version" (str digest_version)
        (field "fields" (obj (ordered digest_fields input)) end)))

unfoldable pub build_candidate_tx_digest : Fields → CandidateDigest
unfolding payload covered
build_candidate_tx_digest input = record {
  digest = keccak256 (payload input);
  covered_fields = covered digest_fields input;
}
