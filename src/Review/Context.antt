-- ===== src/Review/Context.antt =====
-- packages/coding-agent/src/llm/sanitizeContext.js. The keys of an object are ordinary ones, not
-- `__proto__`.
pub mod Clean
use monad_hackathon.Audit.Print.{class_text}
use monad_hackathon.Js.{
  Fields, Items, Value, arr, bool, cons, decimal, end, field, get, nil, null, num, obj, str, truthy,
}
use monad_hackathon.Policy.{PolicyCaps, PolicyFlags, PolicySnapshot}
use monad_hackathon.Prelude.{
  Bool, List, Option, String, [], if◌then◌else◌, ltb, none, some, suc, ℕ, ◌∷◌,
}
use monad_hackathon.ToolSemantics.Patterns.{Pattern, Regex, anywhere, lit, opt_one_of, seq, test}
use monad_hackathon.ToolSemantics.Registry.{
  StateEffect, ToolSemantics, chain_state, key_material, local_chain_config,
}
-- SECRET_KEY_RE
use monad_hackathon.Audit.Print.{class_text}
use monad_hackathon.Js.{
  Fields, Items, Value, arr, bool, cons, decimal, end, field, get, nil, null, num, obj, str, truthy,
}
use monad_hackathon.Policy.{PolicyCaps, PolicyFlags, PolicySnapshot}
use monad_hackathon.Prelude.{
  Bool, List, Option, String, [], if◌then◌else◌, ltb, none, some, suc, ℕ, ◌∷◌,
}
use monad_hackathon.ToolSemantics.Patterns.{Pattern, Regex, anywhere, lit, opt_one_of, seq, test}
use monad_hackathon.ToolSemantics.Registry.{
  StateEffect, ToolSemantics, chain_state, key_material, local_chain_config,
}

abbrev secret_key_re : Pattern
secret_key_re = anywhere (
    Regex.or_else (seq (lit "private") (seq (opt_one_of (45 ∷ 95 ∷ [])) (lit "key"))) (
      Regex.or_else (lit "privatekey") (
        Regex.or_else (lit "secret") (
          Regex.or_else (lit "seed") (
            Regex.or_else (lit "mnemonic") (
              Regex.or_else (lit "passphrase") (
                Regex.or_else (lit "password") (
                  Regex.or_else (seq (lit "api") (seq (opt_one_of (45 ∷ 95 ∷ [])) (lit "key"))) (
                    Regex.or_else (lit "apikey") (
                      Regex.or_else (lit "credential") (
                        Regex.or_else (lit "keystore") (
                          Regex.or_else (lit "authorization") (
                            Regex.or_else (lit "bearer") (
                              seq (lit "access")
                                (seq (opt_one_of (45 ∷ 95 ∷ [])) (lit "token"))))))))))))))))

unfoldable pub names_secret : String → Bool
unfolding test
names_secret key = test key secret_key_re

unfoldable mutual
  unfolding names_secret

  pub strip_secrets : ℕ → Value → Value
  strip_secrets depth (arr xs) =
      let rest = strip_items (suc depth) xs in
      if ltb 8 depth then str "[redacted-depth]" else arr rest
  strip_secrets depth (obj fs) =
      let rest = strip_fields (suc depth) fs in
      if ltb 8 depth then str "[redacted-depth]" else obj rest
  strip_secrets depth v = if ltb 8 depth then str "[redacted-depth]" else v

  pub strip_items : ℕ → Items → Items
  strip_items depth nil = nil
  strip_items depth (cons v vs) = cons (strip_secrets depth v) (strip_items depth vs)

  pub strip_fields : ℕ → Fields → Fields
  strip_fields depth end = end
  strip_fields depth (field k v fs) =
      let rest = strip_secrets depth v in
      field k (if names_secret k then str "[redacted]" else rest) (strip_fields depth fs)

unfoldable pub texts : List String → Items
texts [] = nil
texts (s ∷ ss) = cons (str s) (texts ss)

effect_text : StateEffect → String
effect_text StateEffect.none = "none"
effect_text local_chain_config = "local_chain_config"
effect_text chain_state = "chain_state"
effect_text StateEffect.signature = "signature"
effect_text key_material = "key_material"

unfoldable pub semantics_summary : ToolSemantics → Value
unfolding texts effect_text class_text
semantics_summary s = obj (
    field "tool_name" (str s.tool_name) (
      field "tool_class" (str (class_text s.tool_class)) (
        field "state_effect" (str (effect_text s.state_effect)) (
          field "requires_simulation" (bool s.requires_simulation) (
            field "required_fields" (arr (texts s.required_fields))
              (field "required_evidence" (arr (texts s.required_evidence)) end))))))

unfoldable pub flags_value : PolicyFlags → Value
flags_value f = obj (
    field "block_unlimited_token_approvals" (bool f.block_unlimited_token_approvals) (
      field "allow_unknown_tools" (bool f.allow_unknown_tools) (
        field "require_simulation_for_writes" (bool f.require_simulation_for_writes)
          (field "frozen" (bool f.frozen) end))))

unfoldable pub caps_value : PolicyCaps → Value
unfolding decimal
caps_value c = obj (
    field "max_native_transfer_wei" (str (decimal c.max_native_transfer_wei)) (
      field "max_erc20_transfer_atomic" (str (decimal c.max_erc20_transfer_atomic)) (
        field "max_gas_cost_wei" (str (decimal c.max_gas_cost_wei))
          (field "max_fee_per_gas_wei" (str (decimal c.max_fee_per_gas_wei)) end))))

unfoldable pub policy_summary : Option PolicySnapshot → Value
unfolding flags_value caps_value decimal
policy_summary none = null
policy_summary (some p) = obj (
    field "policy_id" (str p.policy_id) (
      field "policy_version" (str (decimal p.policy_version)) (
        field "chain_id" (num p.source.chain_id) (
          field "contract_address" (str p.source.contract_address)
            (field "flags" (flags_value p.flags) (field "caps" (caps_value p.caps) end))))))

-- The evidence of the action, by its names.
unfoldable pub picked : List String → Fields → Fields
unfolding get
picked [] evidence = end
picked (name ∷ names) evidence = field name (get name evidence) (picked names evidence)

abbrev action_names : List String
action_names =
    "chain_id" ∷ "recipient" ∷ "token" ∷ "spender" ∷ "amount" ∷ "amount_atomic" ∷ "amount_wei"
    ∷ "estimated_gas_cost_wei" ∷ []

unfoldable pub action_evidence : Fields → Value
unfolding strip_secrets picked
action_evidence evidence = strip_secrets 0 (obj (picked action_names evidence))

unfoldable pub simulation_of : Fields → Value
unfolding truthy get strip_secrets
simulation_of evidence =
    if truthy (get "simulation" evidence) then strip_secrets 0 (get "simulation" evidence) else null

unfoldable pub digest_value : Option String → Value
digest_value none = null
digest_value (some digest) = str digest

-- The evidence is an object.
unfoldable pub build_llm_context :
    String
    → ToolSemantics
    → Fields
    → Option String
    → List String
    → Fields
    → Option PolicySnapshot
    → Value
unfolding semantics_summary strip_secrets digest_value texts simulation_of action_evidence
    policy_summary
build_llm_context tool_name s args digest covered_fields evidence p = obj (
    field "tool_name" (str tool_name) (
      field "semantics" (semantics_summary s) (
        field "args" (strip_secrets 0 (obj args)) (
          field "candidate_tx_digest" (digest_value digest) (
            field "covered_fields" (arr (texts covered_fields)) (
              field "simulation" (simulation_of evidence) (
                field "action_evidence" (action_evidence evidence)
                  (field "policy" (policy_summary p) end))))))))
