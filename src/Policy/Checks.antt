-- ===== src/Policy/Checks.antt =====
-- packages/coding-agent/src/risk/riskChecks.js. The evidence is a JSON object.
use Prim.Native.Char.{code}
use Prim.Native.String.{◌++◌ as ◌+++◌}
use monad_hackathon.Codes.{
  Code, ToolClass, code_text, contract_write, missing_required_evidence, policy_amount_over_cap,
  policy_gas_over_cap, policy_recipient_not_allowed, policy_rpc_chain_mismatch,
  policy_spender_not_allowed, policy_token_not_allowed, policy_tool_not_allowed,
  policy_typed_data_not_allowed, policy_unlimited_approval_blocked, simulation_failed,
  simulation_unavailable, token_approval, transaction_execute,
}
use monad_hackathon.Js.{Fields, Value, get, num, obj, or_else, present, str, to_text, truthy}
use monad_hackathon.Js.Numbers.{canonical_decimal, is_num, to_number}
use monad_hackathon.Keccak.{tool_key}
use monad_hackathon.Policy.{PolicySnapshot, SpenderLimit}
use monad_hackathon.Prelude.{
  Bool, List, Option, String, [], false, if◌then◌else◌, includes, ltb, none, not, some, str_eq,
  to_lower, true, ℕ, ◌&&◌, ◌++◌, ◌==◌, ◌||◌, ◌∷◌,
}
use monad_hackathon.Risk.{Level, RiskReason, RiskSummary, critical, high, summarize_risk}
use monad_hackathon.ToolSemantics.Registry.{ToolSemantics}
use monad_hackathon.ToolSemantics.Resolver.{Resolution, denied, visible}

-- UINT256_MAX
abbrev pub uint256_max : ℕ
uint256_max = 115792089237316195423570985008687907853269984665640564039457584007913129639935

-- `amountBigInt`
unfoldable pub amount_big_int : Value → Option ℕ
unfolding canonical_decimal
amount_big_int (str s) = if str_eq s "uint256.max" then some uint256_max else canonical_decimal s
amount_big_int (num n) = some n
amount_big_int _ = none

-- `name.endsWith('?')`
unfoldable pub ends_with_mark : String → Bool
ends_with_mark String.[] = false
ends_with_mark (String.◌∷◌ c String.[]) = code c == 63
ends_with_mark (String.◌∷◌ c (String.◌∷◌ d s)) = ends_with_mark (String.◌∷◌ d s)

-- `name.replace(/_.*/, '')`
before_underscore : String → String
before_underscore String.[] = ""
before_underscore (String.◌∷◌ c s) =
    let rest = String.◌∷◌ c (before_underscore s) in if code c == 95 then "" else rest

unfoldable pub has_evidence : Fields → String → Bool
unfolding ends_with_mark before_underscore get present
has_evidence evidence name =
    if str_eq name "" || ends_with_mark name
    then true
    else if str_eq name "amount"
    then present (get "amount" evidence)
      || (present (get "amount_atomic" evidence) || present (get "amount_wei" evidence))
    else present (get name evidence) || present (get (before_underscore name) evidence)

-- `list.includes(normalizeAddress(v))`, for a list of texts.
unfoldable pub includes_address : List String → Value → Bool
includes_address list (str s) = includes list (to_lower s)
includes_address list v = false

-- `a === normalizeAddress(v)`, for a text a.
unfoldable pub same_address : String → Value → Bool
same_address a (str s) = str_eq a (to_lower s)
same_address a v = false

unfoldable pub reason : Code → Level → String → String → RiskReason
reason code level category message = record {
  code = code;
  level = level;
  category = category;
  message = message;
}

-- `if (test) add(reasons, …)`
unfoldable pub add_if : Bool → RiskReason → List RiskReason
add_if true r = r ∷ []
add_if false r = []

abbrev pub is_write_class : ToolClass → Bool
is_write_class transaction_execute = true
is_write_class token_approval = true
is_write_class ToolClass.signature = true
is_write_class contract_write = true
is_write_class _ = false

abbrev pub is_execute : ToolClass → Bool
is_execute transaction_execute = true
is_execute _ = false

abbrev pub is_approval : ToolClass → Bool
is_approval token_approval = true
is_approval _ = false

abbrev pub is_signature : ToolClass → Bool
is_signature ToolClass.signature = true
is_signature _ = false

-- `v.status === status`
unfoldable pub status_is : String → Value → Bool
unfolding get
status_is status (obj fs) = elim (get "status" fs) [ str s ↦ str_eq s status | _ ↦ false ]
status_is status v = false

-- `evidence.amount_atomic || evidence.amount_wei || evidence.amount`
unfoldable pub amount_of : Fields → Option ℕ
unfolding amount_big_int get or_else
amount_of evidence = amount_big_int (
    or_else (or_else (get "amount_atomic" evidence) (get "amount_wei" evidence))
      (get "amount" evidence))

unfoldable pub over : Option ℕ → ℕ → Bool
over none cap = false
over (some amount) cap = ltb cap amount

unfoldable pub missing_reasons : Fields → List String → List RiskReason
unfolding has_evidence reason add_if
missing_reasons evidence [] = []
missing_reasons evidence (name ∷ names) =
    let rest = missing_reasons evidence names in
    add_if (not (has_evidence evidence name))
      (reason missing_required_evidence high "tool_semantics" ("Missing " +++ (name +++ ".")))
    ++ rest

unfoldable pub wrong_chain : (String → Value) → Fields → Bool
unfolding to_number is_num get present
wrong_chain number_of_text evidence =
    let chain_id = get "chain_id" evidence in
    present chain_id && not (is_num 10143 (to_number number_of_text chain_id))

unfoldable pub simulation_reasons : ToolSemantics → Fields → List RiskReason
unfolding reason add_if get truthy status_is
simulation_reasons s evidence =
    let simulation = get "simulation" evidence in
    if is_write_class s.tool_class || s.requires_simulation
    then if not (truthy simulation)
      then reason simulation_unavailable high "simulation" "Simulation missing." ∷ []
      else if status_is "failed" simulation
      then reason simulation_failed high "simulation" "Simulation failed." ∷ []
      else add_if (status_is "unavailable" simulation)
          (reason simulation_unavailable high "simulation" "Simulation unavailable.")
    else []

-- `v && list && !list.includes(normalizeAddress(v))`
unfoldable pub not_listed : List String → Value → Bool
unfolding truthy includes_address
not_listed list v = truthy v && not (includes_address list v)

-- The cap of a transfer: the native one where an execution names no token.
unfoldable pub cap_of : ToolSemantics → Fields → PolicySnapshot → ℕ
unfolding get truthy
cap_of s evidence p =
    if is_execute s.tool_class && not (truthy (get "token" evidence))
    then p.caps.max_native_transfer_wei
    else p.caps.max_erc20_transfer_atomic

unfoldable pub gas_over_cap : Fields → PolicySnapshot → Bool
unfolding get truthy over amount_big_int
gas_over_cap evidence p =
    let cost = get "estimated_gas_cost_wei" evidence in
    truthy cost && over (amount_big_int cost) p.caps.max_gas_cost_wei

-- `String(evidence.amount_atomic || evidence.amount)` is one of the two spellings of the maximum.
unfoldable pub is_unlimited : Fields → Bool
unfolding get or_else to_text
is_unlimited evidence =
    let text = to_text (or_else (get "amount_atomic" evidence) (get "amount" evidence)) in
    str_eq (to_lower text) "uint256.max"
    || str_eq text "115792089237316195423570985008687907853269984665640564039457584007913129639935"

-- `find`: the first enabled limit of the token and the spender.
unfoldable pub find_limit : Value → Value → List SpenderLimit → Option SpenderLimit
unfolding same_address
find_limit token spender [] = none
find_limit token spender (l ∷ ls) =
    if l.enabled && (same_address l.token token && same_address l.spender spender)
    then some l
    else find_limit token spender ls

unfoldable pub limit_reasons : Option ℕ → Option SpenderLimit → List RiskReason
unfolding reason add_if over
limit_reasons amount none =
    reason policy_spender_not_allowed high "token_approval" "Spender not allowlisted." ∷ []
limit_reasons amount (some l) =
    add_if (over amount l.max_amount_atomic)
      (reason policy_amount_over_cap high "token_approval" "Approval amount over cap.")

unfoldable pub approval_reasons : ToolSemantics → Fields → PolicySnapshot → List RiskReason
unfolding reason add_if is_unlimited find_limit limit_reasons get amount_of
approval_reasons s evidence p =
    if is_approval s.tool_class
    then add_if (is_unlimited evidence)
        (reason policy_unlimited_approval_blocked critical "token_approval" "Unlimited approval.")
      ++ limit_reasons (amount_of evidence)
          (find_limit (get "token" evidence) (get "spender" evidence) p.allowed_spenders)
    else []

-- The reasons whose code is not among `seen`, the first of each code.
unfoldable pub without_codes : List String → List RiskReason → List RiskReason
unfolding code_text
without_codes seen [] = []
without_codes seen (r ∷ rs) =
    let rest = without_codes (code_text r.code ∷ seen) rs in
    elim (includes seen (code_text r.code)) [ true ↦ without_codes seen rs | false ↦ r ∷ rest ]

unfoldable pub joined : List (List RiskReason) → List RiskReason
joined [] = []
joined (rs ∷ rss) = rs ++ joined rss

-- A policy-source failure, by its code.
unfoldable pub failure_reasons : Option Code → List RiskReason
unfolding reason
failure_reasons none = []
failure_reasons (some code) = reason code critical "policy" "Policy source failure." ∷ []

module _ (number_of_text : String → Value) where
  -- The reasons that each check of a visible tool against a policy adds, in order.
  unfoldable pub checks : ToolSemantics → PolicySnapshot → Fields → List (List RiskReason)
  unfolding wrong_chain tool_key missing_reasons simulation_reasons not_listed amount_of over cap_of
      gas_over_cap approval_reasons reason add_if get truthy
  checks s p evidence =
      add_if (wrong_chain number_of_text evidence)
        (reason policy_rpc_chain_mismatch critical "chain" "Wrong chain.")
      ∷ add_if (not (includes p.allowed_tool_keys (tool_key s.tool_name)))
          (reason policy_tool_not_allowed high "policy" "Tool key not allowlisted.")
      ∷ missing_reasons evidence s.required_fields
      ∷ missing_reasons evidence s.required_evidence
      ∷ simulation_reasons s evidence
      ∷ add_if (not_listed p.allowed_recipients (get "recipient" evidence))
          (reason policy_recipient_not_allowed high "recipient" "Recipient not allowlisted.")
      ∷ add_if (not_listed p.allowed_tokens (get "token" evidence))
          (reason policy_token_not_allowed high "token" "Token not allowlisted.")
      ∷ add_if (over (amount_of evidence) (cap_of s evidence p))
          (reason policy_amount_over_cap high "amount" "Amount over cap.")
      ∷ add_if (gas_over_cap evidence p) (reason policy_gas_over_cap high "policy" "Gas over cap.")
      ∷ approval_reasons s evidence p
      ∷ add_if (is_signature s.tool_class && not (truthy (get "typed_data_rule_key" evidence)))
          (reason policy_typed_data_not_allowed high "signature" "Typed data rule missing.")
      ∷ []

  unfoldable pub assess_risk :
      Option Resolution → Option PolicySnapshot → Option Code → Fields → RiskSummary
  unfolding checks joined failure_reasons without_codes summarize_risk reason
  assess_risk (some (denied d)) p failure evidence = summarize_risk (
      failure_reasons failure
      ++ reason d.safe_reason_code critical "tool_semantics" "W2 blocked before policy." ∷ [])
  assess_risk (some (visible v)) (some p) failure evidence =
      summarize_risk
        (without_codes [] (failure_reasons failure ++ joined (checks v.semantics p evidence)))
  assess_risk (some (visible v)) none failure evidence = summarize_risk (failure_reasons failure)
  assess_risk none p failure evidence = summarize_risk (failure_reasons failure)
