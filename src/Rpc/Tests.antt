-- ===== src/Rpc/Tests.antt =====
-- Requests and simulations at a chain that answers, and the theorems at them.
use monad_hackathon.Js.{Fields, end, field, obj, str}
use monad_hackathon.Prelude.{[], if◌then◌else◌, none, refl, some, str_eq, true, ◌↔◌, ◌∷◌, ◌≡◌}
use monad_hackathon.Rpc.{Fetched, Posted, Transport, answered, request}
use monad_hackathon.Rpc.Estimate.{IsEstimated, build_simulation_evidence-success_iff, status_of}
use monad_hackathon.Rpc.Pending.{IsSound, request-IsSound}
use monad_hackathon.Rpc.Simulation.{build_simulation_evidence}

-- Every call is answered, an estimate with 21000.
abbrev calm_chain : Posted → Fetched
calm_chain p = answered true (
    some (
      obj
        (field "result" (str (if str_eq p.method "eth_estimateGas" then "0x5208" else "0x")) end)))

abbrev new_transport : Transport
new_transport = record { last_id = 0; posted = [] }

abbrev payment : Fields
payment = field "to" (str "0xaa") (field "value" (str "0x1") end)

simulation_run :
    (build_simulation_evidence calm_chain payment (some "2") new_transport).1
    ≡ obj (
        field "simulation"
          (obj (field "status" (str "success") end))
          (field "gas_limit" (str "21000") (field "estimated_gas_cost_wei" (str "42000") end)))
unfolding build_simulation_evidence
simulation_run = refl

-- A lookup of a pending transaction is not posted.
pending_run :
    request calm_chain "eth_getTransactionByHash" (str "0x1" ∷ []) new_transport
    ≡ (new_transport, none)
unfolding request
pending_run = refl

build_simulation_evidence-success_iff_example :
    (status_of (build_simulation_evidence calm_chain payment none new_transport).1 ≡ str "success")
    ↔ IsEstimated calm_chain payment none new_transport
build_simulation_evidence-success_iff_example =
    build_simulation_evidence-success_iff calm_chain payment none new_transport

request-IsSound_example : IsSound (request calm_chain "eth_blockNumber" [] new_transport).0
request-IsSound_example =
    request-IsSound calm_chain "eth_blockNumber" [] new_transport
      (record { final = tt; counted = tt; last = refl })
