-- ===== src/Policy/Tests.antt =====
-- The theorems about the evaluation of a policy at a policy that lists two tools.
use monad_hackathon.Codes.{missing_required_evidence}
use monad_hackathon.Js.{end, undefined}
use monad_hackathon.Policy.Checks.{assess_risk, checks}
use monad_hackathon.Policy.Demo.{balance, balance_evidence, demo_policy}
use monad_hackathon.Policy.Evaluate.{
  allow, decide, evaluate_policy, evaluate_visible, first_block, policy_decision,
}
use monad_hackathon.Policy.Permitted.{IsPermitted, evaluate_policy-allow_iff}
use monad_hackathon.Prelude.{none, refl, some, ◌≡◌}
use monad_hackathon.ToolSemantics.Registry.{get_balance}
use monad_hackathon.ToolSemantics.Resolver.{visible}

-- The listed read-only tool with its evidence is allowed.
allow_run :
    (evaluate_policy
      (λ s. undefined)
      (some (visible balance))
      (some demo_policy)
      none
      balance_evidence
      none).decision
    ≡ allow
unfolding evaluate_policy evaluate_visible decide policy_decision first_block assess_risk checks
allow_run = refl

balance-IsPermitted : IsPermitted (λ s. undefined) get_balance demo_policy balance_evidence
balance-IsPermitted =
    ((evaluate_policy-allow_iff (λ s. undefined) balance demo_policy balance_evidence none).0
      allow_run).0

-- Without its evidence it is not.
block_run :
    (evaluate_policy
      (λ s. undefined)
      (some (visible balance))
      (some demo_policy)
      none
      end
      none).reason_code
    ≡ missing_required_evidence
unfolding evaluate_policy evaluate_visible decide policy_decision first_block assess_risk checks
block_run = refl

-- With no resolution a policy that was read allows, whatever the call carries.
unresolved_run :
    (evaluate_policy (λ s. undefined) none (some demo_policy) none end none).decision ≡ allow
unfolding evaluate_policy evaluate_visible decide policy_decision first_block assess_risk
unresolved_run = refl
