-- ===== src/Risk.antt =====
-- packages/coding-agent/src/risk: riskTypes.js and policySourceRisk.js.
pub mod Worst
mod Tests
use Prim.Native.Char.{code}
use Prim.Native.Nat.{max}
use monad_hackathon.Codes.{Code, policy_rpc_read_failed}
use monad_hackathon.Prelude.{
  Bool, List, Option, String, [], false, filter, if◌then◌else◌, leb, ltb, none, some, true, ℕ, ◌∷◌,
}

pub data Level : Type 0 where
  low medium high critical : Level

-- LEVEL_SCORE
unfoldable pub level_score : Level → ℕ
level_score low = 10
level_score medium = 35
level_score high = 70
level_score critical = 100

-- The evidence of a reason is always the empty object.
pub record RiskReason : Type 0 where
  pub code : Code
  pub level : Level
  pub category : String
  pub message : String

pub record RiskSummary : Type 0 where
  pub score : ℕ
  pub level : Level
  pub reasons : List RiskReason
  pub blocking_findings : List RiskReason

unfoldable pub is_blocking : RiskReason → Bool
is_blocking r = elim r.level [ high ↦ true | critical ↦ true | _ ↦ false ]

-- One step of the stable sort by falling score.
unfoldable pub insert_reason : RiskReason → List RiskReason → List RiskReason
unfolding level_score
insert_reason r [] = r ∷ []
insert_reason r (s ∷ rs) =
    let rest = insert_reason r rs in
    if ltb (level_score r.level) (level_score s.level) then s ∷ rest else r ∷ s ∷ rs

unfoldable pub sort_reasons : List RiskReason → List RiskReason
unfolding insert_reason
sort_reasons [] = []
sort_reasons (r ∷ rs) = insert_reason r (sort_reasons rs)

-- The `reduce` with `Math.max`, from 0.
max_score : List RiskReason → ℕ
unfolding level_score
max_score [] = 0
max_score (r ∷ rs) = max (level_score r.level) (max_score rs)

level_of : ℕ → Level
level_of score =
    if leb 100 score
    then critical
    else if leb 70 score
    then high
    else if leb 35 score
    then medium
    else low

unfoldable pub summarize_risk : List RiskReason → RiskSummary
unfolding is_blocking sort_reasons max_score level_of
summarize_risk reasons = record {
  score = max_score reasons;
  level = level_of (max_score reasons);
  reasons = reasons;
  blocking_findings = sort_reasons (filter is_blocking reasons);
}

-- A failure is given by its code, `none` where it has none.
unfoldable pub assess_policy_source_risk : Option (Option Code) → RiskSummary
unfolding summarize_risk
assess_policy_source_risk none = summarize_risk []
assess_policy_source_risk (some code) = summarize_risk (
    record {
      code = elim code [ none ↦ policy_rpc_read_failed | some c ↦ c ];
      level = critical;
      category = "policy";
      message = "Policy source failed closed.";
    }
    ∷ [])
