-- ===== src/Rpc/Estimate.antt =====
-- When a simulation succeeds.
use monad_hackathon.Js.{Fields, Value, arr, bool, get, null, num, obj, other_num, str, undefined}
use monad_hackathon.Js.BigInt.{big_int, ℤ}
use monad_hackathon.Prelude.{
  Option, Option-cases, String, [], ap, inl, inr, none, refl, some, some_inj, sym, ◌+◌, ◌↔◌, ◌∙◌,
  ◌∷◌, ◌≡◌,
}
use monad_hackathon.Rpc.{Fetched, Posted, Transport, request, result_of}
use monad_hackathon.Rpc.Simulation.{
  after_estimate, after_eth_call, build_simulation_evidence, call_of, hex_to_big_int,
  or_unavailable, status_evidence, with_cost,
}

-- `evidence.simulation.status`
unfoldable pub status_of : Value → Value
unfolding get
status_of (obj fs) = elim (get "simulation" fs) [
  | obj outcome ↦ get "status" outcome
  | _ ↦ undefined
]
status_of v = undefined

-- The product with a fee, where there is one.
abbrev pub CostReads : Option String → Type 0
CostReads none = Unit {0}
CostReads (some fee) = (wei : ℤ) × (big_int fee ≡ some wei)

-- Both requests were answered, the second with a number of units of gas.
pub record IsEstimated (fetch : Posted → Fetched) (tx : Fields) (fee : Option String)
    (t : Transport) : Type 0 where
  pub answer : Value
  pub gas_text : String
  pub gas : ℤ
  pub called :
      result_of (
        fetch (record {
          id = t.last_id + 1;
          method = "eth_call";
          params = obj (call_of tx) ∷ str "latest" ∷ [];
        }))
      ≡ some answer
  pub estimated :
      result_of (
        fetch (record {
          id = t.last_id + 1 + 1;
          method = "eth_estimateGas";
          params = obj (call_of tx) ∷ [];
        }))
      ≡ some (str gas_text)
  pub gas_reads : big_int gas_text ≡ some gas
  pub cost_reads : CostReads fee

hex_to_big_int-text :
    (v : Value) (gas : ℤ)
    → hex_to_big_int v ≡ some gas
    → (s : String) × (v ≡ str s) × (big_int s ≡ some gas)
unfolding hex_to_big_int
hex_to_big_int-text (str s) gas h = (s, refl, h)
hex_to_big_int-text undefined gas h = cc h
hex_to_big_int-text null gas h = cc h
hex_to_big_int-text (bool b) gas h = cc h
hex_to_big_int-text (num n) gas h = cc h
hex_to_big_int-text (other_num s) gas h = cc h
hex_to_big_int-text (obj fs) gas h = cc h
hex_to_big_int-text (arr xs) gas h = cc h

CostReads-iff :
    (gas : ℤ) (fee : Option String)
    → (status_of (or_unavailable (with_cost gas fee)) ≡ str "success") ↔ CostReads fee
unfolding with_cost status_of or_unavailable status_evidence
CostReads-iff gas none = (λ h. tt, λ h. refl)
CostReads-iff gas (some fee) = elim (Option-cases (big_int fee)) [
  | inl e ↦ (λ h. cc (rw (e, with_cost) at h), λ (w, f). cc (sym e ∙ f))
  | inr (w, e) ↦ (λ h. (w, e), λ h. rw (e, with_cost) refl)
]

after_estimate-success_iff :
    (fee : Option String) (o : Option Value)
    → (status_of (after_estimate fee o) ≡ str "success") ↔ (
        (hex : Value) × (o ≡ some hex)
        × (gas : ℤ) × (hex_to_big_int hex ≡ some gas)
        × CostReads fee)
unfolding after_estimate status_of status_evidence
after_estimate-success_iff fee none = (λ h. cc, λ (hex, e, gas, f, c). cc e)
after_estimate-success_iff fee (some hex) = elim (Option-cases (hex_to_big_int hex)) [
  | inl e ↦ (
    λ h. cc (rw (e, after_estimate) at h),
    λ (other, same, gas, f, c).
        let g : hex_to_big_int other ≡ none = rw (sym (some_inj same)) e in cc (sym g ∙ f),
  )
  | inr (gas, e) ↦
      let (a, b) = CostReads-iff gas fee in
      (
        λ h. (hex, refl, gas, e, a (rw (e, after_estimate) at h)),
        λ (other, same, g, f, c). rw (e, after_estimate) (b c),
      )
]

module _ (fetch : Posted → Fetched) (tx : Fields) (fee : Option String) where
  after_eth_call-success_iff :
      (t : Transport) (o : Option Value)
      → (status_of (after_eth_call fetch (call_of tx) fee (t, o)).1 ≡ str "success") ↔ (
          (a : Value) × (o ≡ some a)
          × (hex : Value) × ((request fetch "eth_estimateGas" (obj (call_of tx) ∷ []) t).1
              ≡ some hex)
          × (gas : ℤ) × (hex_to_big_int hex ≡ some gas)
          × CostReads fee)
  unfolding after_eth_call status_of status_evidence
  after_eth_call-success_iff t none = (λ h. cc, λ (a, e, hex, f, gas, g, c). cc e)
  after_eth_call-success_iff t (some v) =
      let (a, b) =
        after_estimate-success_iff fee
          (request fetch "eth_estimateGas" (obj (call_of tx) ∷ []) t).1 in
      (
        λ h. let (hex, f, gas, g, c) = a h in (v, refl, hex, f, gas, g, c),
        λ (v', e, hex, f, gas, g, c). b (hex, f, gas, g, c),
      )

  -- A simulation has the status "success" exactly when the chain answered both the call and the
  -- estimate without an error, the estimate is a text that stands for an integer, and so does the
  -- fee, where one is given. In every other case the status is another one.
  pub build_simulation_evidence-success_iff :
      (t : Transport)
      → (status_of (build_simulation_evidence fetch tx fee t).1 ≡ str "success")
        ↔ IsEstimated fetch tx fee t
  unfolding build_simulation_evidence request hex_to_big_int
  build_simulation_evidence-success_iff t =
      let (a, b) =
        after_eth_call-success_iff
          (request fetch "eth_call" (obj (call_of tx) ∷ str "latest" ∷ []) t).0
          (request fetch "eth_call" (obj (call_of tx) ∷ str "latest" ∷ []) t).1 in
      (
        λ h.
            let (v, e, hex, f, gas, g, c) = a h in
            let (text, same, reads) = hex_to_big_int-text hex gas g in
            record {
              answer = v;
              gas_text = text;
              gas = gas;
              called = e;
              estimated = f ∙ ap some same;
              gas_reads = reads;
              cost_reads = c;
            },
        λ r. b (r.answer, r.called, str r.gas_text, r.estimated, r.gas, r.gas_reads, r.cost_reads),
      )
