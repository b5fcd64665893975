-- ===== src/Risk/Tests.antt =====
-- The theorems about the summary at concrete reasons.
use monad_hackathon.Codes.{policy_gas_over_cap, policy_rpc_chain_mismatch}
use monad_hackathon.Prelude.{In, [], refl, ◌∷◌, ◌≡◌, ◌≤◌}
use monad_hackathon.Risk.{RiskReason, critical, high, level_score, summarize_risk}
use monad_hackathon.Risk.Worst.{summarize_risk-first}

abbrev gas : RiskReason
gas = record {
  code = policy_gas_over_cap;
  level = high;
  category = "policy";
  message = "Gas over cap.";
}

abbrev chain : RiskReason
chain = record {
  code = policy_rpc_chain_mismatch;
  level = critical;
  category = "chain";
  message = "Wrong chain.";
}

-- The graver finding comes first, and gives the reason of the block.
order_run : (summarize_risk (gas ∷ chain ∷ [])).blocking_findings ≡ chain ∷ gas ∷ []
unfolding summarize_risk level_score
order_run = refl

summarize_risk-first_example :
    ((summarize_risk (gas ∷ chain ∷ [])).score ≡ level_score critical)
    × ((summarize_risk (gas ∷ chain ∷ [])).level ≡ critical)
    × ((r : RiskReason)
        → In r (gas ∷ chain ∷ [])
        → level_score r.level ≤ (summarize_risk (gas ∷ chain ∷ [])).score)
summarize_risk-first_example = summarize_risk-first (gas ∷ chain ∷ []) chain (gas ∷ []) order_run
