-- ===== src/Coverage.antt =====
-- packages/coding-agent/src/action-coverage: evidenceExtractors.js and actionCoverage.js. The keys of
-- an object are ordinary ones, not `__proto__`.
pub mod Consented
mod Tests
use Prim.Native.String.{◌++◌ as ◌+++◌}
use monad_hackathon.Codes.{ToolClass, read_only, token_approval, transaction_execute}
use monad_hackathon.Consent.{check_consent, requires_consent}
use monad_hackathon.Forward.{Setting, ToolCall}
use monad_hackathon.Forward.Run.{Progress, begin_forward}
use monad_hackathon.Idempotency.{IdempotencyStore}
use monad_hackathon.Js.{
  Fields, Slot, Value, absent, bool, end, field, get, inherited, num, obj, or_else, own, present,
  put, str, to_text, truthy, undefined,
}
use monad_hackathon.Js.Numbers.{to_number}
use monad_hackathon.Policy.Checks.{ends_with_mark}
use monad_hackathon.Prelude.{
  Bool, List, Option, String, [], false, if◌then◌else◌, none, not, some, str_eq, to_lower, true,
  ◌&&◌, ◌∷◌,
}
use monad_hackathon.ToolSemantics.Registry.{ToolSemantics, get_tool_semantics}

pub record CoverContext : Type 0 where
  pub chain_id : Value
  pub account : Value
  pub typed_data_rule_key : Value

-- `lower(v)`
unfoldable pub lower : Value → Value
unfolding to_lower
lower (str s) = str (to_lower s)
lower v = v

-- `v.name`, `undefined` where v is no object.
abbrev prop : String → Value → Value
prop name (obj fs) = get name fs
prop name v = undefined

unfoldable pub put_if : Bool → String → Value → Fields → Fields
unfolding put
put_if b k v fs = if b then put k v fs else fs

-- The inner loop over the entries of a nested object, with the outer key.
flatten_one : String → Fields → Fields → Fields
unfolding get put present
flatten_one k end evidence = evidence
flatten_one k (field k2 v2 fs) evidence =
    let dotted = k +++ ("." +++ k2) in
    flatten_one k fs (put_if (not (present (get dotted evidence))) dotted v2 evidence)

-- The outer loop over the entries of the arguments.
unfoldable pub flatten : Fields → Fields → Fields
unfolding flatten_one
flatten end evidence = evidence
flatten (field k (obj inner) fs) evidence = flatten fs (flatten_one k inner evidence)
flatten (field k v fs) evidence = flatten fs evidence

-- The loop over the required evidence.
unfoldable pub flag_all : List String → Fields → Fields
unfolding ends_with_mark present get put
flag_all [] evidence = evidence
flag_all (name ∷ names) evidence = flag_all names (
    put_if
      (not (str_eq name "") && (not (ends_with_mark name) && not (present (get name evidence))))
      name (bool true) evidence)

unfoldable pub chain_of : (String → Value) → CoverContext → Fields → Value
unfolding to_number present get
chain_of number_of_text ctx args =
    if present ctx.chain_id
    then to_number number_of_text ctx.chain_id
    else if present (get "chainId" args)
    then to_number number_of_text (get "chainId" args)
    else num 10143

-- The chain, over the raw arguments.
unfoldable pub base_evidence : Value → Fields → Fields
unfolding put
base_evidence chain_id args =
    put "chain_evidence" (obj (field "chain_id" chain_id end)) (put "chain_id" chain_id args)

unfoldable pub token_evidence : Fields → Fields → Fields
unfolding lower truthy get put
token_evidence args evidence =
    put_if (truthy (get "token" args)) "token" (lower (get "token" args)) evidence

unfoldable pub simulation_evidence : Value → Fields → Fields
unfolding truthy put
simulation_evidence outcome evidence = put_if (truthy outcome) "simulation" outcome evidence

unfoldable pub recipient_of : Fields → Value
unfolding or_else get
recipient_of args =
    or_else (or_else (get "to" args) (get "recipient" args)) (get "recipientAddress" args)

unfoldable pub amount_arg : Fields → Value
unfolding present get
amount_arg args = if present (get "amount" args) then get "amount" args else get "value" args

unfoldable pub execute_evidence : Fields → Value → Fields → Fields
unfolding recipient_of amount_arg token_evidence simulation_evidence lower truthy present get put
    to_text
execute_evidence args outcome evidence =
    let recipient = recipient_of args in
    let amount = amount_arg args in
    let with_recipient = put_if (truthy recipient) "recipient" (lower recipient) evidence in
    let with_amount =
      put_if (present amount) (if truthy (get "token" args) then "amount_atomic" else "amount_wei")
        (str (to_text amount)) (token_evidence args with_recipient) in
    let cost = prop "estimated_gas_cost_wei" outcome in
    put_if (truthy cost) "estimated_gas_cost_wei" (str (to_text cost))
      (simulation_evidence outcome with_amount)

unfoldable pub approval_evidence : Fields → Value → Fields → Fields
unfolding token_evidence simulation_evidence lower truthy present get put to_text to_lower
approval_evidence args outcome evidence =
    let spender = get "spender" args in
    let amount = get "amount" args in
    let with_spender =
      put_if (truthy spender) "spender" (lower spender) (token_evidence args evidence) in
    let with_amount = put_if (present amount) "amount_atomic" (str (to_text amount)) with_spender in
    simulation_evidence outcome (
      put "finite_amount_evidence" (bool (not (str_eq (to_lower (to_text amount)) "uint256.max")))
        with_amount)

unfoldable pub signature_evidence : CoverContext → Fields → Value → Fields → Fields
unfolding simulation_evidence or_else truthy get put
signature_evidence ctx args outcome evidence =
    let rule_key = or_else ctx.typed_data_rule_key (get "typed_data_rule_key" args) in
    simulation_evidence outcome (put_if (truthy rule_key) "typed_data_rule_key" rule_key evidence)

unfoldable pub class_evidence : ToolClass → CoverContext → Fields → Value → Fields → Fields
unfolding token_evidence execute_evidence approval_evidence signature_evidence put
class_evidence read_only ctx args outcome evidence =
    token_evidence args (put "sanitized_address_or_account_context" (bool true) evidence)
class_evidence transaction_execute ctx args outcome evidence =
    execute_evidence args outcome evidence
class_evidence token_approval ctx args outcome evidence = approval_evidence args outcome evidence
class_evidence ToolClass.signature ctx args outcome evidence =
    signature_evidence ctx args outcome evidence
class_evidence _ ctx args outcome evidence = evidence

unfoldable pub extract_evidence :
    (String → Value) → Option ToolSemantics → Fields → CoverContext → Value → Fields
unfolding chain_of base_evidence flatten flag_all class_evidence
extract_evidence number_of_text none args ctx outcome =
    flatten args (base_evidence (chain_of number_of_text ctx args) args)
extract_evidence number_of_text (some s) args ctx outcome =
    class_evidence s.tool_class ctx args outcome (
      flag_all s.required_evidence
        (flatten args (base_evidence (chain_of number_of_text ctx args) args)))

-- An inherited property has none of the fields that are read.
unfoldable pub semantics_of : Slot ToolSemantics → Option ToolSemantics
semantics_of (own s) = some s
semantics_of inherited = none
semantics_of absent = none

-- A call that is skipped, with what its consent lacks, or guarded.
pub data Covering (R E : Type 0) : Type 0 where
  skipped : List String → Covering R E
  guarded : Progress R E → Covering R E

abbrev pub needs_consent : Option ToolSemantics → Bool
needs_consent none = false
needs_consent (some s) = requires_consent s.tool_class

abbrev hash_of : Option ToolSemantics → Option String
hash_of none = none
hash_of (some s) = some s.input_schema_hash

unfoldable pub semantics_for : String → Option ToolSemantics
unfolding get_tool_semantics semantics_of
semantics_for tool_name = semantics_of (get_tool_semantics tool_name)

-- The call and the setting that the guarded forward is given; the setting's own evidence is replaced.
unfoldable pub call_for : String → Fields → ToolCall
unfolding semantics_for
call_for tool_name args = record {
  tool_name = tool_name;
  input_schema_hash = hash_of (semantics_for tool_name);
  args = args;
}

unfoldable pub setting_for :
    (String → Value) → String → Fields → CoverContext → Value → Setting → Setting
unfolding extract_evidence semantics_for
setting_for number_of_text tool_name args ctx outcome setting = record setting {
  evidence = extract_evidence number_of_text (semantics_for tool_name) args ctx outcome;
}

module _ {R E : Type 0} where
  unfoldable pub cover_tool_call :
      (String → Value)
      → String
      → Fields
      → CoverContext
      → Value
      → Value
      → Setting
      → Option (IdempotencyStore R E)
      → Option (IdempotencyStore R E) × Covering R E
  unfolding semantics_for requires_consent check_consent begin_forward call_for setting_for
  cover_tool_call number_of_text tool_name args ctx outcome consent setting store =
      let check = check_consent consent in
      let (after, progress) =
        begin_forward number_of_text (call_for tool_name args)
          (setting_for number_of_text tool_name args ctx outcome setting) store in
      if needs_consent (semantics_for tool_name) && not check.ok
      then (store, skipped check.missing)
      else (after, guarded progress)
