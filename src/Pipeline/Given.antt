-- ===== src/Pipeline/Given.antt =====
-- What a run of a mutation tool passes on, and which tools those are.
use monad_hackathon.Codes.{Code}
use monad_hackathon.Consent.{requires_consent}
use monad_hackathon.Coverage.{needs_consent, semantics_for, semantics_of}
use monad_hackathon.Js.{
  Fields, Slot, Value, absent, end, field, get, inherited, obj, own, present, str,
}
use monad_hackathon.Pipeline.{
  RunnerConfig, coalesce, mutation_tools, outcome_of, prepared, simulated_tx,
}
use monad_hackathon.Prelude.{
  Bool, Bool-cases, In, List, Option, Option-cases, String, [], all, eq_iff, false, in-all,
  includes, inl, inr, none, not, refl, some, str_eq, sym, true, ◌↔◌, ◌∙◌, ◌∷◌, ◌≡◌,
}
use monad_hackathon.Rpc.{Fetched, Posted, Transport, provisional_block_tag, request}
use monad_hackathon.Rpc.Simulation.{
  after_estimate, after_eth_call, build_simulation_evidence, call_of, hex_to_big_int,
  or_unavailable, status_evidence, with_cost,
}
use monad_hackathon.ToolSemantics.Registry.{
  ToolSemantics, get_tool_semantics, wallet_agent_registry,
}
use monad_hackathon.ToolSemantics.Registry.Facts.{get_tool_semantics-In}

-- The evidence has a simulation with a status, and nothing else in it.
abbrev HasStatus : Value → Type 0
HasStatus v = (s : String) × (outcome_of v ≡ obj (field "status" (str s) end))

status_evidence-HasStatus : (s : String) (rest : Fields) → HasStatus (status_evidence s rest)
unfolding status_evidence outcome_of coalesce get present
status_evidence-HasStatus s rest = (s, refl)

after_estimate-HasStatus : (o : Option Value) → HasStatus (after_estimate none o)
unfolding after_estimate with_cost or_unavailable
after_estimate-HasStatus none = status_evidence-HasStatus "unavailable" end
after_estimate-HasStatus (some hex) = elim (Option-cases (hex_to_big_int hex)) [
  | inl e ↦ rw (e, after_estimate) (status_evidence-HasStatus "unavailable" end)
  | inr (gas, e) ↦ rw (e, after_estimate) (status_evidence-HasStatus "success" _)
]

after_eth_call-HasStatus :
    (fetch : Posted → Fetched) (call : Fields) (r : Transport × Option Value)
    → HasStatus (after_eth_call fetch call none r).1
unfolding after_eth_call
after_eth_call-HasStatus fetch call (t, none) = status_evidence-HasStatus "failed" end
after_eth_call-HasStatus fetch call (t, some a) =
    after_estimate-HasStatus (request fetch "eth_estimateGas" (obj call ∷ []) t).1

-- The simulation that a run of a mutation tool passes on is a status and nothing else: no gas limit and
-- no gas cost, which the evidence of the call would take from it.
pub prepared-HasStatus :
    (number_of_text : String → Value) (debug_ref : Code → String) (fetch : Posted → Fetched)
    (config : RunnerConfig) (tool_name : String) (args : Fields) (rpc : Transport)
    → includes mutation_tools tool_name ≡ true
    → (s : String) × ((prepared number_of_text debug_ref fetch config tool_name args rpc).1.0
        ≡ obj (field "status" (str s) end))
unfolding prepared build_simulation_evidence
prepared-HasStatus number_of_text debug_ref fetch config tool_name args rpc mutates =
    let call = call_of (simulated_tx config.signer args) in
    let (s, e) =
      after_eth_call-HasStatus fetch call
        (request fetch "eth_call" (obj call ∷ str provisional_block_tag ∷ []) rpc) in
    rw mutates (s, e)

-- Two tests agree.
same_test : Bool → Bool → Bool
same_test true b = b
same_test false b = not b

same_test-eq : (a b : Bool) → same_test a b ≡ true → a ≡ b
unfolding same_test
same_test-eq true true h = refl
same_test-eq true false h = cc h
same_test-eq false true h = cc h
same_test-eq false false h = refl

agrees : String × ToolSemantics → Bool
unfolding same_test requires_consent
agrees (k, s) = same_test (includes mutation_tools k) (requires_consent s.tool_class)

all_agree : all agrees wallet_agent_registry ≡ true
unfolding agrees
all_agree = refl

agrees-eq :
    (k : String) (s : ToolSemantics)
    → agrees (k, s) ≡ true
    → includes mutation_tools k ≡ requires_consent s.tool_class
unfolding agrees
agrees-eq k s h = same_test-eq (includes mutation_tools k) (requires_consent s.tool_class) h

registered-eq :
    (k : String) (s : ToolSemantics)
    → get_tool_semantics k ≡ own s
    → includes mutation_tools k ≡ requires_consent s.tool_class
registered-eq k s h =
    agrees-eq k s
      (in-all agrees (k, s) wallet_agent_registry all_agree (get_tool_semantics-In k s h))

includes-In : (ks : List String) (k : String) → includes ks k ≡ true → In k ks
includes-In [] k h = cc h
includes-In (x ∷ ks) k h = elim (Bool-cases (str_eq x k)) [
  | inl same ↦ inl (sym ((eq_iff x k).0 same))
  | inr other ↦ inr (includes-In ks k (rw other at h))
]

all_need : all (λ k. needs_consent (semantics_for k)) mutation_tools ≡ true
unfolding semantics_for requires_consent
all_need = refl

listed_needs :
    (k : String) → includes mutation_tools k ≡ true → needs_consent (semantics_for k) ≡ true
listed_needs k h =
    in-all (λ j. needs_consent (semantics_for j)) k mutation_tools all_need
      (includes-In mutation_tools k h)

needs_of :
    (k : String) (s : Slot ToolSemantics)
    → get_tool_semantics k ≡ s
    → needs_consent (semantics_of s) ≡ true
    → includes mutation_tools k ≡ true
unfolding semantics_of
needs_of k (own s) e h = registered-eq k s e ∙ h
needs_of k inherited e h = cc h
needs_of k absent e h = cc h

-- The tools for which the pipeline makes a consent are those whose class in the registry asks for one.
pub mutation_tools_iff :
    (k : String) → (includes mutation_tools k ≡ true) ↔ (needs_consent (semantics_for k) ≡ true)
unfolding semantics_for
mutation_tools_iff k = (listed_needs k, λ h. needs_of k (get_tool_semantics k) refl h)
