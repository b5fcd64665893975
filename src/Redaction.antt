-- ===== src/Redaction.antt =====
-- packages/coding-agent/src: safe-errors/redact.js and audit/auditRedaction.js. The keys of an object
-- are ordinary ones, not `__proto__`.
pub mod Hidden
mod Tests
use Prim.Native.Char.{code}
use monad_hackathon.Js.{Fields, Items, Value, arr, cons, end, field, keys, nil, obj, str}
use monad_hackathon.Prelude.{
  Bool, List, String, [], false, if◌then◌else◌, includes, leb, lookup, ltb, none, some, suc, true,
  zero, ℕ, ◌&&◌, ◌==◌, ◌||◌, ◌∷◌,
}
use monad_hackathon.ToolSemantics.Patterns.{
  Pattern, Regex, anywhere, at_start, lit, opt_one_of, seq, test,
}

-- SECRET_KEY_RE
abbrev pub secret_key_re : Pattern
secret_key_re = anywhere (
    Regex.or_else (lit "secret") (
      Regex.or_else (lit "token") (
        Regex.or_else (lit "password") (
          Regex.or_else (seq (lit "private") (seq (opt_one_of (95 ∷ 45 ∷ [])) (lit "key"))) (
            Regex.or_else (lit "keystore") (
              Regex.or_else (lit "credential") (
                Regex.or_else (seq (lit "rpc") (seq (opt_one_of (95 ∷ [])) (lit "url"))) (
                  Regex.or_else (seq (lit "api") (seq (opt_one_of (45 ∷ 95 ∷ [])) (lit "key"))) (
                    Regex.or_else (lit "stack") (Regex.or_else (lit "raw") (lit "payload")))))))))))

unfoldable pub is_secret_key : String → Bool
unfolding test
is_secret_key key = test key secret_key_re

-- URL_SECRET_RE
abbrev pub url_secret_re : Pattern
url_secret_re = at_start (Regex.or_else (lit "http://") (lit "https://"))

abbrev pub is_hex_code : ℕ → Bool
is_hex_code n = (leb 48 n && leb n 57) || ((leb 97 n && leb n 102) || (leb 65 n && leb n 70))

-- A text of hexadecimal digits, as many as the number.
unfoldable pub hex_run : ℕ → String → Bool
hex_run zero String.[] = true
hex_run (suc n) (String.◌∷◌ c s) = is_hex_code (code c) && hex_run n s
hex_run _ _ = false

-- PRIVATE_HEX_RE: 0x and 64 digits.
unfoldable pub private_hex : String → Bool
unfolding hex_run
private_hex (String.◌∷◌ c (String.◌∷◌ d s)) = code c == 48 && (code d == 120 && hex_run 64 s)
private_hex _ = false

unfoldable pub is_secret_text : String → Bool
unfolding test private_hex
is_secret_text s = test s url_secret_re || private_hex s

unfoldable mutual
  unfolding is_secret_key is_secret_text

  pub redact_value : ℕ → Value → Value
  redact_value depth (str s) = if ltb 8 depth || is_secret_text s then str "[redacted]" else str s
  redact_value depth (arr xs) =
      let rest = redact_items (suc depth) xs in if ltb 8 depth then str "[redacted]" else arr rest
  redact_value depth (obj fs) =
      let rest = redact_fields (suc depth) fs in if ltb 8 depth then str "[redacted]" else obj rest
  redact_value depth v = if ltb 8 depth then str "[redacted]" else v

  pub redact_items : ℕ → Items → Items
  redact_items depth nil = nil
  redact_items depth (cons v vs) = cons (redact_value depth v) (redact_items depth vs)

  pub redact_fields : ℕ → Fields → Fields
  redact_fields depth end = end
  redact_fields depth (field k v fs) =
      let rest = redact_value depth v in
      field k (if is_secret_key k then str "[redacted]" else rest) (redact_fields depth fs)

-- PRESERVE_PUBLIC_HEX_FIELDS
abbrev pub preserve_public_hex_fields : List String
preserve_public_hex_fields = "policy_id" ∷ "schema_id" ∷ "content_hash" ∷ "tx_hash" ∷ []

-- COMMON
abbrev common : List String
common =
    "chain_id" ∷ "tool_name" ∷ "tool_class" ∷ "policy_id" ∷ "policy_version" ∷ "reason_codes" ∷ []

-- ACTION_ALLOWLISTS
abbrev action_allowlists : List (String × List String)
action_allowlists =
    (
      "policy_source_read",
      "chain_id" ∷ "policy_contract_address" ∷ "policy_id" ∷ "policy_version" ∷ "schema_id"
          ∷ "content_hash" ∷ "owner_address" ∷ "read_status" ∷ "read_block_number"
          ∷ "last_updated_block" ∷ "cache_status" ∷ "reason_codes" ∷ [],
    )
    ∷ (
      "policy_source_read_failed",
      "chain_id" ∷ "policy_contract_address" ∷ "failure_code" ∷ "read_status" ∷ "rpc_provider_index"
          ∷ "cache_status" ∷ "reason_codes" ∷ [],
    )
    ∷ (
      "policy_snapshot_validated",
      "chain_id" ∷ "policy_contract_address" ∷ "policy_id" ∷ "policy_version" ∷ "schema_id"
          ∷ "content_hash" ∷ "last_updated_block" ∷ [],
    )
    ∷ (
      "risk_scored",
      "chain_id" ∷ "policy_id" ∷ "policy_version" ∷ "risk_level" ∷ "reason_codes" ∷ [],
    )
    ∷ (
      "policy_evaluated",
      "chain_id" ∷ "policy_contract_address" ∷ "policy_id" ∷ "policy_version" ∷ "policy_decision"
          ∷ "reason_codes" ∷ "content_hash" ∷ [],
    )
    ∷ (
      "tool_call_blocked",
      "chain_id" ∷ "policy_contract_address" ∷ "policy_id" ∷ "policy_version" ∷ "failure_code"
          ∷ "reason_codes" ∷ [],
    )
    ∷ (
      "policy_update_observed",
      "chain_id" ∷ "policy_contract_address" ∷ "policy_id" ∷ "policy_version" ∷ "content_hash"
          ∷ "owner_address" ∷ "tx_hash" ∷ "block_number" ∷ [],
    )
    ∷ []

-- `allowed.has(key)`; an action is one of the program's, none of which an object inherits.
unfoldable pub is_allowed : String → String → Bool
is_allowed action key =
    includes (elim (lookup action action_allowlists) [ none ↦ [] | some keys ↦ keys ]) key
    || includes common key

-- A value under a key: a text under a public key stays.
unfoldable pub kept_value : String → Value → Value
unfolding redact_value
kept_value key (str s) =
    if includes preserve_public_hex_fields key then str s else redact_value 0 (str s)
kept_value key v = redact_value 0 v

unfoldable pub redact_audit_metadata : String → Fields → Fields
unfolding is_allowed kept_value
redact_audit_metadata action end = end
redact_audit_metadata action (field key v fs) =
    let rest = redact_audit_metadata action fs in
    if is_allowed action key then field key (kept_value key v) rest else rest
