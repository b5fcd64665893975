-- ===== src/Policy/Evaluate.antt =====
-- packages/coding-agent/src/policy: evaluatePolicy.js and policyDecision.js. An audit writer says, of
-- an event by its action, whether it is written; `none` is no writer.
use Prim.Native.Char.{code}
use monad_hackathon.Codes.{
  Code, audit_write_failed, code_text, policy_allowed, policy_rpc_read_failed,
}
use monad_hackathon.Js.{Fields, Value}
use monad_hackathon.Policy.{PolicySnapshot}
use monad_hackathon.Policy.Checks.{assess_risk}
use monad_hackathon.Prelude.{
  Bool, List, Option, String, [], if◌then◌else◌, none, some, str_eq, true, ℕ, ◌∷◌,
}
use monad_hackathon.Risk.{RiskReason, RiskSummary}
use monad_hackathon.ToolSemantics.Resolver.{Resolution, denied, visible}

pub data Verdict : Type 0 where
  allow block : Verdict

-- What a decision says of the snapshot that it rests on.
pub record PolicyReference : Type 0 where
  pub policy_id : String
  pub policy_version : ℕ
  pub content_hash : String
  pub chain_id : ℕ
  pub contract_address : String
  pub schema_id : String

pub record PolicyDecision : Type 0 where
  pub decision : Verdict
  pub reason_code : Code
  pub matched_policies : List String
  pub policy : Option PolicyReference
  pub explanation : String

abbrev pub AuditWriter : Type 0
AuditWriter = Option (String → Bool)

reference_of : Option PolicySnapshot → Option PolicyReference
reference_of none = none
reference_of (some p) = some (record {
  policy_id = p.policy_id;
  policy_version = p.policy_version;
  content_hash = p.content_hash;
  chain_id = p.source.chain_id;
  contract_address = p.source.contract_address;
  schema_id = p.source.schema_id;
})

unfoldable pub policy_decision :
    Verdict → Code → Option PolicySnapshot → String → List String → PolicyDecision
unfolding reference_of code_text
policy_decision decision reason_code p explanation matched = record {
  decision = decision;
  reason_code = reason_code;
  matched_policies = matched;
  policy = reference_of p;
  explanation = if str_eq explanation "" then code_text reason_code else explanation;
}

-- There is no writer, or its write succeeds.
abbrev pub audit_allows : AuditWriter → String → Bool
audit_allows none action = true
audit_allows (some write) action = write action

unfoldable pub first_of : List RiskReason → Option RiskReason
first_of [] = none
first_of (r ∷ rs) = some r

unfoldable pub first_block : RiskSummary → Option RiskReason
unfolding first_of
first_block risk = first_of risk.blocking_findings

unfoldable pub decide : AuditWriter → PolicySnapshot → Option RiskReason → PolicyDecision
unfolding policy_decision
decide writer p (some r) = policy_decision block r.code (some p) r.message []
decide writer p none =
    if audit_allows writer "policy_evaluated"
    then policy_decision allow policy_allowed (some p)
        "On-chain policy and risk checks allowed the request." ("onchain-policy" ∷ [])
    else policy_decision block audit_write_failed (some p) "Audit failed closed." []

module _ (number_of_text : String → Value) where
  -- What follows once the tool is not denied.
  unfoldable pub evaluate_visible :
      Option Resolution
      → Option PolicySnapshot
      → Option Code
      → Fields
      → AuditWriter
      → PolicyDecision
  unfolding policy_decision first_block decide assess_risk
  evaluate_visible resolution p (some code) evidence writer =
      policy_decision block code none "Policy source failed closed." []
  evaluate_visible resolution none none evidence writer =
      policy_decision block policy_rpc_read_failed none "Policy snapshot missing; fail closed." []
  evaluate_visible resolution (some p) none evidence writer =
      decide writer p (first_block (assess_risk number_of_text resolution (some p) none evidence))

  unfoldable pub evaluate_policy :
      Option Resolution
      → Option PolicySnapshot
      → Option Code
      → Fields
      → AuditWriter
      → PolicyDecision
  unfolding policy_decision evaluate_visible
  evaluate_policy (some (denied d)) p failure evidence writer =
      policy_decision block d.safe_reason_code none "Blocked by W2 before policy." []
  evaluate_policy (some (visible v)) p failure evidence writer =
      evaluate_visible (some (visible v)) p failure evidence writer
  evaluate_policy none p failure evidence writer = evaluate_visible none p failure evidence writer
