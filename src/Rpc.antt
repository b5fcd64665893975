-- ===== src/Rpc.antt =====
-- packages/coding-agent/src/monad-rpc: monadRpcBehavior.js and jsonRpcTransport.js, and
-- simulationEvidence.js in the child Simulation. What `fetch` answers is a parameter; a request that
-- is aborted by its timer is one that `fetch` rejects.
pub mod Simulation
pub mod Pending
pub mod Estimate
mod Tests
use monad_hackathon.Js.{Value, get, null, obj, str, truthy, undefined}
use monad_hackathon.Prelude.{
  Bool, List, Option, String, [], false, if◌then◌else◌, none, not, some, str_eq, true, ℕ, ◌++◌, ◌+◌,
  ◌∷◌,
}

-- PROVISIONAL_BLOCK_TAG
abbrev pub provisional_block_tag : String
provisional_block_tag = "latest"

-- `v === s`
abbrev is_text : String → Value → Bool
is_text s (str t) = str_eq t s
is_text s v = false

-- `reliesOnPendingLookup`
unfoldable pub relies_on_pending_lookup : String → Value → Bool
relies_on_pending_lookup method block_tag =
    if str_eq method "eth_getTransactionByHash" then true else is_text "pending" block_tag

pub record SendResult : Type 0 where
  pub status : String
  pub synchronous_confirmation : Bool
  pub tx_hash : Value
  pub note : String

prop : String → Value → Value
unfolding get
prop name (obj fs) = get name fs
prop name v = undefined

value_or_null : Value → Value
unfolding truthy
value_or_null v = if truthy v then v else null

tx_hash_of : Value → Value
unfolding prop value_or_null truthy
tx_hash_of (str s) = str s
tx_hash_of v = value_or_null (prop "tx_hash" v)

-- `classifySendResult`: what was sent counts as submitted only.
unfoldable pub classify_send_result : Value → SendResult
unfolding tx_hash_of
classify_send_result raw_result = record {
  status = "submitted";
  synchronous_confirmation = false;
  tx_hash = tx_hash_of raw_result;
  note = "Monad send validation is async; confirm via receipt/idempotency, not pending lookup.";
}

-- `sanitizedRpcFailure`: its error code.
unfoldable pub sanitized_rpc_failure : Option String → String
sanitized_rpc_failure none = "MONAD_RPC_UNAVAILABLE"
sanitized_rpc_failure (some reason_code) =
    if str_eq reason_code "" then "MONAD_RPC_UNAVAILABLE" else reason_code

-- The body of a request.
pub record Posted : Type 0 where
  pub id : ℕ
  pub method : String
  pub params : List Value

-- `rejected`: `fetch` throws. Else `res.ok`, and what `res.json()` gives, `none` where it throws.
pub data Fetched : Type 0 where
  rejected : Fetched
  answered : Bool → Option Value → Fetched

-- The counter of the requests, and the bodies that were posted, in order.
pub record Transport : Type 0 where
  pub last_id : ℕ
  pub posted : List Posted

-- `createJsonRpcTransport`, `none` where it throws; the program's run time has `fetch`.
unfoldable pub create_json_rpc_transport : String → Option Transport
create_json_rpc_transport rpc_url =
    if str_eq rpc_url "" then none else some (record { last_id = 0; posted = [] })

-- `params[params.length - 1]`
unfoldable pub last_param : List Value → Value
last_param [] = undefined
last_param (p ∷ []) = p
last_param (p ∷ q ∷ ps) = last_param (q ∷ ps)

-- The answer that `request` resolves to, `none` where it throws.
unfoldable pub result_of : Fetched → Option Value
unfolding prop truthy
result_of rejected = none
result_of (answered fine none) = none
result_of (answered fine (some body)) =
    if not fine
    then none
    else if truthy (prop "error" body)
    then none
    else some (prop "result" body)

module _ (fetch : Posted → Fetched) where
  -- `request`
  unfoldable pub request : String → List Value → Transport → Transport × Option Value
  unfolding relies_on_pending_lookup last_param result_of
  request method params t =
      let body : Posted = record { id = t.last_id + 1; method = method; params = params } in
      if relies_on_pending_lookup method (last_param params) then (t, none) else (
        record { last_id = t.last_id + 1; posted = t.posted ++ body ∷ [] },
        result_of (fetch body),
      )
