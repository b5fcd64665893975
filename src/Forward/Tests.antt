-- ===== src/Forward/Tests.antt =====
-- A transfer that is cleared, and the theorems about guarded calls at it.
use monad_hackathon.Codes.{policy_allowed}
use monad_hackathon.Forward.{
  Clearance, Setting, ToolCall, derive_idempotency_key, gate_of, given_snapshot,
}
use monad_hackathon.Forward.Cleared.{IsCleared, begin_forward-goes_on_iff, goes_on, passes}
use monad_hackathon.Forward.Once.{
  Forwards, Forwards-once, begin_forward-Steps, called_key, logged, none_yet, then_begin,
}
use monad_hackathon.Forward.Run.{begin_forward, forward_key}
use monad_hackathon.Idempotency.{IdempotencyStore, new_store}
use monad_hackathon.Idempotency.Once.{count}
use monad_hackathon.Js.{Fields, bool, end, field, num, obj, str, undefined}
use monad_hackathon.Policy.Demo.{addr, demo_policy}
use monad_hackathon.Policy.Evaluate.{allow, first_block}
use monad_hackathon.Prelude.{List, String, [], none, refl, some, to_lower, true, ◌↔◌, ◌≡◌, ◌≤◌}
use monad_hackathon.Review.{Reviewer, safe}
use monad_hackathon.ToolSemantics.Registry.{
  get_tool_semantics, get_unsupported_capability, send_transaction,
}
use monad_hackathon.ToolSemantics.Resolver.{classify_blocked_tool, is_dangerous, is_key_material}

abbrev transfer : ToolCall
transfer = record {
  tool_name = "send_transaction";
  input_schema_hash =
      some "sha256:daead389c178e7ac445a79579bceea8fa826fe9f64c5ee015af3deabb97e3d2d";
  args = field "to" (str addr) (field "value" (str "5") end);
}

abbrev transfer_evidence : Fields
transfer_evidence = field "chain_id" (num 10143) (
    field "to" (str addr) (
      field "value" (str "5") (
        field "candidate" (str "built") (
          field "simulation" (obj (field "status" (str "success") end)) (
            field "digest" (bool true)
              (field "policy" (bool true) (field "idempotency" (bool true) end)))))))

abbrev calm : Reviewer
calm context = some (obj (field "verdict" (str "safe") end))

abbrev setting : Setting
setting = record {
  evidence = transfer_evidence;
  source = given_snapshot demo_policy;
  client = some calm;
  from_env = none;
  can_forward = true;
  writer = none;
}

-- The transfer is cleared.
gate_run : passes (gate_of (λ s. undefined) transfer setting) ≡ true
unfolding gate_of to_lower first_block get_unsupported_capability classify_blocked_tool
    is_key_material is_dangerous get_tool_semantics
gate_run = refl

abbrev store : IdempotencyStore String String
store = new_store

begin_forward-goes_on_iff_example :
    (goes_on (begin_forward (λ s. undefined) transfer setting (some store)).1 ≡ true)
    ↔ IsCleared (λ s. undefined) transfer setting
begin_forward-goes_on_iff_example =
    begin_forward-goes_on_iff (λ s. undefined) transfer setting (some store)

abbrev after_transfer : IdempotencyStore String String
after_transfer = (begin_forward-Steps (λ s. undefined) transfer setting store).0

-- The keys of the calls that reach the upstream.
abbrev transfer_calls : List String
transfer_calls =
    logged (called_key transfer (begin_forward (λ s. undefined) transfer setting (some store)).1) []

one_transfer : Forwards (λ s. undefined) store after_transfer transfer_calls
one_transfer =
    then_begin transfer setting after_transfer (none_yet store)
      (begin_forward-Steps (λ s. undefined) transfer setting store).1

Forwards-once_example : count (derive_idempotency_key "send_transaction" "0xd") transfer_calls ≤ 1
Forwards-once_example =
    Forwards-once (λ s. undefined) after_transfer transfer_calls one_transfer
      (derive_idempotency_key "send_transaction" "0xd")

abbrev clearance : Clearance
clearance = record {
  semantics = send_transaction;
  policy = record {
    decision = allow;
    reason_code = policy_allowed;
    matched_policies = [];
    policy = none;
    explanation = "";
  };
  digest = some (record { digest = "0xd"; covered_fields = [] });
  llm_review = record { ran = true; verdict = safe; reason_redacted = ""; error_code = none };
}

abbrev transfer_key : String
transfer_key = derive_idempotency_key "send_transaction" "0xd"

transfer_keyed : forward_key transfer clearance ≡ some transfer_key
unfolding forward_key
transfer_keyed = refl
