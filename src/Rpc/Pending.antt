-- ===== src/Rpc/Pending.antt =====
-- What is posted to the chain, and when a simulation succeeds.
use monad_hackathon.Js.{Fields, Value, obj, str}
use monad_hackathon.Prelude.{
  All, Bool-cases, List, Option, String, [], arith, false, inl, inr, length, length-append, none,
  some, ℕ, ◌++◌, ◌+◌, ◌∙◌, ◌∷◌, ◌≡◌,
}
use monad_hackathon.Rpc.{Fetched, Posted, Transport, last_param, relies_on_pending_lookup, request}
use monad_hackathon.Rpc.Simulation.{after_eth_call, build_simulation_evidence, call_of}

abbrev pub IsFinal : Posted → Type 0
IsFinal p = relies_on_pending_lookup p.method (last_param p.params) ≡ false

-- The identifiers count up from a number.
abbrev pub CountsFrom : ℕ → List Posted → Type 0
CountsFrom n [] = Unit
CountsFrom n (p ∷ ps) = (p.id ≡ n + 1) × CountsFrom (n + 1) ps

-- Nothing that was posted relies on pending state, and the identifiers count up from 1.
pub record IsSound (t : Transport) : Type 0 where
  pub final : All IsFinal t.posted
  pub counted : CountsFrom 0 t.posted
  pub last : length t.posted ≡ t.last_id

All-concat :
    (ps : List Posted) (p : Posted) → All IsFinal ps → IsFinal p → All IsFinal (ps ++ p ∷ [])
All-concat [] p h q = (q, tt)
All-concat (x ∷ ps) p (f, h) q = (f, All-concat ps p h q)

CountsFrom-concat :
    (n : ℕ) (ps : List Posted) (p : Posted)
    → CountsFrom n ps
    → p.id ≡ n + length ps + 1
    → CountsFrom n (ps ++ p ∷ [])
CountsFrom-concat n [] p h e = (omega (arith, e), tt)
CountsFrom-concat n (x ∷ ps) p (f, h) e = (f, CountsFrom-concat (n + 1) ps p h (omega (arith, e)))

module _ (fetch : Posted → Fetched) where
  -- A request keeps a transport sound: it is posted, with the next number, only if it does not rely
  -- on the lookup of pending state.
  pub request-IsSound :
      (method : String) (params : List Value) (t : Transport)
      → IsSound t
      → IsSound (request fetch method params t).0
  unfolding request
  request-IsSound method params t s =
      elim (Bool-cases (relies_on_pending_lookup method (last_param params))) [
        | inl relies ↦ rw relies s
        | inr final ↦ rw final (record {
          final = All-concat t.posted _ s.final final;
          counted = CountsFrom-concat 0 t.posted _ s.counted (omega (arith, s.last));
          last = length-append t.posted _ ∙ omega (arith, s.last);
        })
      ]

module _ (fetch : Posted → Fetched) where
  after_eth_call-IsSound :
      (call : Fields) (fee : Option String) (r : Transport × Option Value)
      → IsSound r.0
      → IsSound (after_eth_call fetch call fee r).0
  unfolding after_eth_call
  after_eth_call-IsSound call fee (t, none) s = s
  after_eth_call-IsSound call fee (t, some v) s =
      request-IsSound fetch "eth_estimateGas" (obj call ∷ []) t s

  pub build_simulation_evidence-IsSound :
      (tx : Fields) (fee : Option String) (t : Transport)
      → IsSound t
      → IsSound (build_simulation_evidence fetch tx fee t).0
  unfolding build_simulation_evidence
  build_simulation_evidence-IsSound tx fee t s =
      let params : List Value = obj (call_of tx) ∷ str "latest" ∷ [] in
      after_eth_call-IsSound (call_of tx) fee (request fetch "eth_call" params t)
        (request-IsSound fetch "eth_call" params t s)
