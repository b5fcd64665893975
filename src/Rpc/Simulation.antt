-- ===== src/Rpc/Simulation.antt =====
-- packages/coding-agent/src/monad-rpc/simulationEvidence.js.
use monad_hackathon.Js.{Fields, Value, end, field, get, obj, str, truthy}
use monad_hackathon.Js.BigInt.{big_int, decimal_text, ℤ, ◌*ℤ◌}
use monad_hackathon.Prelude.{Option, String, [], if◌then◌else◌, none, some, ◌∷◌}
use monad_hackathon.Rpc.{Fetched, Posted, Transport, provisional_block_tag, request}

unfoldable pub status_evidence : String → Fields → Value
status_evidence status rest = obj (field "simulation" (obj (field "status" (str status) end)) rest)

-- A property of the call, left out where it is not truthy.
with_text : String → Fields → Fields → Fields
unfolding truthy get
with_text name tx rest = if truthy (get name tx) then field name (get name tx) rest else rest

unfoldable pub call_of : Fields → Fields
unfolding with_text
call_of tx =
    with_text "from" tx (with_text "to" tx (with_text "value" tx (with_text "data" tx end)))

-- The `catch`.
unfoldable pub or_unavailable : Option Value → Value
unfolding status_evidence
or_unavailable none = status_evidence "unavailable" end
or_unavailable (some v) = v

unfoldable pub hex_to_big_int : Value → Option ℤ
unfolding big_int
hex_to_big_int (str hex) = big_int hex
hex_to_big_int v = none

-- With a fee for each gas, its text. `none` is an exception, which the source catches.
unfoldable pub with_cost : ℤ → Option String → Option Value
unfolding status_evidence decimal_text big_int ◌*ℤ◌
with_cost gas none =
    some (status_evidence "success" (field "gas_limit" (str (decimal_text gas)) end))
with_cost gas (some fee) = elim (big_int fee) [
  | none ↦ none
  | some fee_wei ↦ some (
      status_evidence "success" (
        field "gas_limit" (str (decimal_text gas))
          (field "estimated_gas_cost_wei" (str (decimal_text (gas *ℤ fee_wei))) end)))
]

-- From the answer of eth_estimateGas on.
unfoldable pub after_estimate : Option String → Option Value → Value
unfolding hex_to_big_int with_cost or_unavailable status_evidence
after_estimate fee none = status_evidence "unavailable" end
after_estimate fee (some gas_hex) = elim (hex_to_big_int gas_hex) [
  | none ↦ status_evidence "unavailable" end
  | some gas ↦ or_unavailable (with_cost gas fee)
]

module _ (fetch : Posted → Fetched) where
  -- From the answer of eth_call on.
  unfoldable pub after_eth_call :
      Fields → Option String → Transport × Option Value → Transport × Value
  unfolding after_estimate status_evidence request
  after_eth_call call fee (t, none) = (t, status_evidence "failed" end)
  after_eth_call call fee (t, some answer) =
      let (after, gas_hex) = request fetch "eth_estimateGas" (obj call ∷ []) t in
      (after, after_estimate fee gas_hex)

  -- `tx` is an object, and there is a transport.
  unfoldable pub build_simulation_evidence : Fields → Option String → Transport → Transport × Value
  unfolding after_eth_call call_of request
  build_simulation_evidence tx fee t =
      after_eth_call (call_of tx) fee
        (request fetch "eth_call" (obj (call_of tx) ∷ str provisional_block_tag ∷ []) t)
