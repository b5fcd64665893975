-- ===== src/Policy/Permitted.antt =====
-- What the checks of a visible tool come to, and when a policy allows a call.
use monad_hackathon.Js.{Fields, Value, get, present, truthy}
use monad_hackathon.Js.Numbers.{is_num, to_number}
use monad_hackathon.Keccak.{tool_key}
use monad_hackathon.Policy.{PolicySnapshot, SpenderLimit}
use monad_hackathon.Policy.Blocking.{check-nil_iff, checks-AllBlock}
use monad_hackathon.Policy.Checks.{
  amount_big_int, amount_of, assess_risk, cap_of, checks, failure_reasons, find_limit, has_evidence,
  includes_address, is_approval, is_signature, is_unlimited, is_write_class, joined, status_is,
  without_codes, wrong_chain,
}
use monad_hackathon.Policy.Evaluate.{
  AuditWriter, allow, audit_allows, decide, evaluate_policy, evaluate_visible, first_block,
  first_of, policy_decision,
}
use monad_hackathon.Policy.Quiet.{
  add_if_nil, approval_nil, chain_iff, gas_iff, joined_nil, missing_nil, not_listed_iff, over_iff,
  simulation_nil,
}
use monad_hackathon.Prelude.{
  Bool-cases, In, List, Option, String, [], arith, false, includes, inl, inr, none, refl, some,
  true, ℕ, ◌||◌, ◌↔◌, ◌∷◌, ◌≡◌, ◌≤◌,
}
use monad_hackathon.Risk.{RiskReason, RiskSummary, summarize_risk}
use monad_hackathon.ToolSemantics.Registry.{ToolSemantics}
use monad_hackathon.ToolSemantics.Resolver.{Visible, visible}

-- What a policy asks of a call, written without the lists of reasons.
pub record IsPermitted (number_of_text : String → Value) (s : ToolSemantics) (p : PolicySnapshot)
    (evidence : Fields) : Type 0 where
  pub chain :
      present (get "chain_id" evidence) ≡ true
      → is_num 10143 (to_number number_of_text (get "chain_id" evidence)) ≡ true
  pub tool : includes p.allowed_tool_keys (tool_key s.tool_name) ≡ true
  pub fields : (name : String) → In name s.required_fields → has_evidence evidence name ≡ true
  pub proofs : (name : String) → In name s.required_evidence → has_evidence evidence name ≡ true
  pub simulation :
      (is_write_class s.tool_class || s.requires_simulation) ≡ true
      → (truthy (get "simulation" evidence) ≡ true)
        × (status_is "failed" (get "simulation" evidence) ≡ false)
        × (status_is "unavailable" (get "simulation" evidence) ≡ false)
  pub recipient :
      truthy (get "recipient" evidence) ≡ true
      → includes_address p.allowed_recipients (get "recipient" evidence) ≡ true
  pub token :
      truthy (get "token" evidence) ≡ true
      → includes_address p.allowed_tokens (get "token" evidence) ≡ true
  pub amount : (n : ℕ) → amount_of evidence ≡ some n → n ≤ cap_of s evidence p
  pub gas :
      truthy (get "estimated_gas_cost_wei" evidence) ≡ true
      → (n : ℕ) → amount_big_int (get "estimated_gas_cost_wei" evidence) ≡ some n
      → n ≤ p.caps.max_gas_cost_wei
  pub approval :
      is_approval s.tool_class ≡ true
      → (is_unlimited evidence ≡ false)
        × ((l : SpenderLimit) × (find_limit
                (get "token" evidence)
                (get "spender" evidence)
                p.allowed_spenders
              ≡ some l)
            × ((n : ℕ) → amount_of evidence ≡ some n → n ≤ l.max_amount_atomic))
  pub signature :
      is_signature s.tool_class ≡ true → truthy (get "typed_data_rule_key" evidence) ≡ true

pub joined_nil-IsPermitted :
    (number_of_text : String → Value) (s : ToolSemantics) (p : PolicySnapshot) (evidence : Fields)
    → (joined (checks number_of_text s p evidence) ≡ []) ↔ IsPermitted number_of_text s p evidence
unfolding checks wrong_chain
joined_nil-IsPermitted number_of_text s p evidence =
    let (every, whole) = joined_nil (checks number_of_text s p evidence) in
    (
      λ e.
          let (h0, (h1, (h2, (h3, (h4, (h5, (h6, (h7, (h8, (h9, (h10, _))))))))))) = every e in
          record {
            chain = (chain_iff _ _).0 ((add_if_nil _ _).0 h0);
            tool = ground (arith, (add_if_nil _ _).0 h1);
            fields = (missing_nil evidence s.required_fields).0 h2;
            proofs = (missing_nil evidence s.required_evidence).0 h3;
            simulation = (simulation_nil s evidence).0 h4;
            recipient = (not_listed_iff _ _).0 ((add_if_nil _ _).0 h5);
            token = (not_listed_iff _ _).0 ((add_if_nil _ _).0 h6);
            amount = (over_iff _ _).0 ((add_if_nil _ _).0 h7);
            gas = (gas_iff evidence p).0 ((add_if_nil _ _).0 h8);
            approval = (approval_nil s evidence p).0 h9;
            signature = (chain_iff _ _).0 ((add_if_nil _ _).0 h10);
          },
      λ h. whole (
        (add_if_nil _ _).1 ((chain_iff _ _).1 h.chain),
        (
          (add_if_nil _ _).1 (ground (arith, h.tool)),
          (
            (missing_nil evidence s.required_fields).1 h.fields,
            (
              (missing_nil evidence s.required_evidence).1 h.proofs,
              (
                (simulation_nil s evidence).1 h.simulation,
                (
                  (add_if_nil _ _).1 ((not_listed_iff _ _).1 h.recipient),
                  (
                    (add_if_nil _ _).1 ((not_listed_iff _ _).1 h.token),
                    (
                      (add_if_nil _ _).1 ((over_iff _ _).1 h.amount),
                      (
                        (add_if_nil _ _).1 ((gas_iff evidence p).1 h.gas),
                        (
                          (approval_nil s evidence p).1 h.approval,
                          ((add_if_nil _ _).1 ((chain_iff _ _).1 h.signature), tt),
                        ),
                      ),
                    ),
                  ),
                ),
              ),
            ),
          ),
        ),
      ),
    )

first_of_none : (rs : List RiskReason) → (first_of rs ≡ none) ↔ (rs ≡ [])
unfolding first_of
first_of_none [] = (λ h. refl, λ h. refl)
first_of_none (r ∷ rs) = (λ h. cc, λ h. cc)

first_block_none : (risk : RiskSummary) → (first_block risk ≡ none) ↔ (risk.blocking_findings ≡ [])
unfolding first_block
first_block_none risk = first_of_none risk.blocking_findings

-- The checks of a visible tool have no blocking finding exactly when the call is permitted.
risk-IsPermitted :
    (number_of_text : String → Value) (v : Visible) (p : PolicySnapshot) (evidence : Fields)
    → (first_block (assess_risk number_of_text (some (visible v)) (some p) none evidence) ≡ none)
      ↔ IsPermitted number_of_text v.semantics p evidence
unfolding assess_risk failure_reasons
risk-IsPermitted number_of_text v p evidence =
    let rs = joined (checks number_of_text v.semantics p evidence) in
    let (a, b) = first_block_none (summarize_risk (without_codes [] rs)) in
    let (c, d) = check-nil_iff rs (checks-AllBlock number_of_text v.semantics p evidence) in
    let (e, f) = joined_nil-IsPermitted number_of_text v.semantics p evidence in
    (λ h. e (c (a h)), λ h. b (d (f h)))

decide-allow_iff :
    (writer : AuditWriter) (p : PolicySnapshot) (finding : Option RiskReason)
    → ((decide writer p finding).decision ≡ allow)
      ↔ ((finding ≡ none) × (audit_allows writer "policy_evaluated" ≡ true))
unfolding decide policy_decision
decide-allow_iff writer p (some r) = (λ h. cc, λ (h, _). cc)
decide-allow_iff writer p none = elim (Bool-cases (audit_allows writer "policy_evaluated")) [
  | inl w ↦ (λ h. (refl, w), λ h. simp w refl)
  | inr w ↦ (λ h. cc (simp w at h), λ (_, h). cc)
]

pub evaluate_policy-allow_iff :
    (number_of_text : String → Value) (v : Visible) (p : PolicySnapshot) (evidence : Fields)
    (writer : AuditWriter)
    → ((evaluate_policy number_of_text (some (visible v)) (some p) none evidence writer).decision
        ≡ allow)
      ↔ (IsPermitted number_of_text v.semantics p evidence
          × (audit_allows writer "policy_evaluated" ≡ true))
unfolding evaluate_policy evaluate_visible
evaluate_policy-allow_iff number_of_text v p evidence writer =
    let (a, b) = risk-IsPermitted number_of_text v p evidence in
    let (c, d) =
      decide-allow_iff writer p
        (first_block (assess_risk number_of_text (some (visible v)) (some p) none evidence)) in
    (λ h. (a (c h).0, (c h).1), λ (h, w). d (b h, w))
