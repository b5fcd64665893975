-- ===== src/Coverage/Tests.antt =====
-- Covered calls, and the theorems at them.
use monad_hackathon.Coverage.{
  CoverContext, cover_tool_call, extract_evidence, put_if, recipient_of, semantics_for,
  signature_evidence,
}
use monad_hackathon.Coverage.Consented.{covers}
use monad_hackathon.Forward.{Setting, gate_of, given_snapshot}
use monad_hackathon.Idempotency.{IdempotencyStore, new_store}
use monad_hackathon.Js.{Fields, Value, end, field, get, num, obj, str, truthy, undefined}
use monad_hackathon.Policy.Checks.{amount_of}
use monad_hackathon.Policy.Demo.{addr, demo_policy}
use monad_hackathon.Policy.Evaluate.{first_block}
use monad_hackathon.Prelude.{String, none, refl, some, to_lower, true, ◌≡◌}
use monad_hackathon.Review.{Reviewer}
use monad_hackathon.ToolSemantics.Registry.{
  get_tool_semantics, get_unsupported_capability, send_transaction,
}
use monad_hackathon.ToolSemantics.Resolver.{classify_blocked_tool, is_dangerous, is_key_material}

abbrev ctx : CoverContext
ctx = record { chain_id = num 10143; account = undefined; typed_data_rule_key = undefined }

abbrev success : Value
success = obj (field "status" (str "success") end)

-- The arguments' own `amount_atomic` stands before the amount that is sent.
spoof_run :
    amount_of (
      extract_evidence
        (λ s. undefined)
        (some send_transaction)
        (field "value" (str "99999") (field "amount_atomic" (str "1") end))
        ctx
        success)
    ≡ some 1
unfolding extract_evidence amount_of put_if
spoof_run = refl

-- A decimal amount has no number, so no cap applies to it.
decimal_run :
    amount_of (
      extract_evidence
        (λ s. undefined)
        (some send_transaction)
        (field "value" (str "5000.5") end)
        ctx
        success)
    ≡ none
unfolding extract_evidence amount_of put_if
decimal_run = refl

-- Nor has a number that is printed with an exponent.
large_run :
    amount_of (
      extract_evidence
        (λ s. undefined)
        (some send_transaction)
        (field "value" (num 1000000000000000000000) end)
        ctx
        success)
    ≡ none
unfolding extract_evidence amount_of put_if
large_run = refl

-- The arguments' own rule key is taken for a mapped rule.
rule_run :
    truthy (
      get "typed_data_rule_key"
        (signature_evidence ctx (field "typed_data_rule_key" (str "any") end) success end))
    ≡ true
unfolding signature_evidence put_if truthy get
rule_run = refl

abbrev consent : Value
consent = obj (
    field "network" (str "monad-testnet") (
      field "account" (str "a")
        (field "target" (str addr) (field "asset" (str "MON") (field "max_amount" (str "5") end)))))

abbrev transfer_args : Fields
transfer_args = field "to" (str addr) (field "value" (str "5") end)

abbrev calm : Reviewer
calm context = some (obj (field "verdict" (str "safe") end))

abbrev setting : Setting
setting = record {
  evidence = end;
  source = given_snapshot demo_policy;
  client = some calm;
  from_env = none;
  can_forward = true;
  writer = none;
}

abbrev store : IdempotencyStore String String
store = new_store

covers_run :
    covers
      (cover_tool_call
        (λ s. undefined)
        "send_transaction"
        transfer_args
        ctx
        success
        consent
        setting
        (some store)).1
    ≡ true
unfolding cover_tool_call to_lower first_block get_unsupported_capability classify_blocked_tool
    is_key_material is_dangerous get_tool_semantics gate_of put_if
covers_run = refl

semantics_run : semantics_for "send_transaction" ≡ some send_transaction
unfolding semantics_for
semantics_run = refl

recipient_run : truthy (recipient_of transfer_args) ≡ true
unfolding truthy recipient_of
recipient_run = refl
