-- ===== src/Forward/Run.antt =====
-- The part of guardedForward.js around the call of the upstream. `R` is what the upstream resolves to,
-- `E` what it throws.
use monad_hackathon.Codes.{Code, ToolClass}
use monad_hackathon.Digest.{CandidateDigest}
use monad_hackathon.Forward.{
  Clearance, Gate, GuardedForwardRecord, Setting, Stop, ToolCall, class_of, cleared,
  derive_idempotency_key, gate_of, is_idempotent, policy_source_snapshot, resolve_policy, stopped,
}
use monad_hackathon.Idempotency.{
  Begun, IdempotencyStore, Settlement, begin, fulfilled, invalid, raises, rejected, reuses, settle,
  starts, waits,
}
use monad_hackathon.Js.{Value}
use monad_hackathon.Policy.{PolicySnapshot}
use monad_hackathon.Policy.Evaluate.{Verdict, allow, block}
use monad_hackathon.Prelude.{Bool, Option, String, false, if◌then◌else◌, none, some, true}
use monad_hackathon.ToolSemantics.Resolver.{resolve_call_by_name}

pub record ForwardResult (R : Type 0) : Type 0 where
  pub decision : Verdict
  pub error : Option Code
  pub result : Option R
  pub record_of : GuardedForwardRecord
  pub reused : Bool

-- `thrown none` is the error that `runOnce` throws for an empty key.
pub data ForwardOutcome (R E : Type 0) : Type 0 where
  finished : ForwardResult R → ForwardOutcome R E
  thrown : Option E → ForwardOutcome R E

-- A call that awaits a promise: its own, or another call's with the same key.
pub record Pending : Type 0 where
  pub clearance : Clearance
  pub idempotency_key : Option String

pub data Progress (R E : Type 0) : Type 0 where
  ended : ForwardOutcome R E → Progress R E
  calls_upstream awaits_other : Pending → Progress R E

-- The key of a cleared call; a digest is never an empty text.
unfoldable pub key_for : ToolCall → ToolClass → Option CandidateDigest → Option String
unfolding derive_idempotency_key
key_for call k none = none
key_for call k (some d) =
    let key = derive_idempotency_key call.tool_name d.digest in
    if is_idempotent k then some key else none

unfoldable pub forward_key : ToolCall → Clearance → Option String
unfolding key_for
forward_key call c = key_for call c.semantics.tool_class c.digest

module _ {R : Type 0} where
  unfoldable pub block_result :
      ToolCall → Option ToolClass → Option PolicySnapshot → Stop → ForwardResult R
  unfolding policy_source_snapshot
  block_result call c p stop = record {
    decision = block;
    error = some stop.reason_code;
    result = none;
    record_of = record {
      tool_name = call.tool_name;
      tool_class = c;
      decision = block;
      reason_code = stop.reason_code;
      digest = stop.digest;
      idempotency_key = none;
      policy_source = policy_source_snapshot p;
      llm_review = stop.llm_review;
    };
    reused = false;
  }

  unfoldable pub allow_result :
      ToolCall → Option PolicySnapshot → Pending → R → Bool → ForwardResult R
  unfolding policy_source_snapshot
  allow_result call p pending_call result reused = record {
    decision = allow;
    error = none;
    result = some result;
    record_of = record {
      tool_name = call.tool_name;
      tool_class = some pending_call.clearance.semantics.tool_class;
      decision = allow;
      reason_code = pending_call.clearance.policy.reason_code;
      digest = pending_call.clearance.digest;
      idempotency_key = pending_call.idempotency_key;
      policy_source = policy_source_snapshot p;
      llm_review = some pending_call.clearance.llm_review;
    };
    reused = reused;
  }

module _ {R E : Type 0} where
  unfoldable pub progress_of :
      ToolCall → Option PolicySnapshot → Clearance → String → Begun R E → Progress R E
  unfolding allow_result
  progress_of call p c key invalid = ended (thrown none)
  progress_of call p c key starts =
      calls_upstream (record { clearance = c; idempotency_key = some key })
  progress_of call p c key waits =
      awaits_other (record { clearance = c; idempotency_key = some key })
  progress_of call p c key (reuses r) =
      ended (
        finished
          (allow_result call p (record { clearance = c; idempotency_key = some key }) r true))
  progress_of call p c key (raises e) = ended (thrown (some e))

  -- A cleared call without a key forwards; one with a key asks the store.
  unfoldable pub launch_keyed :
      ToolCall
      → Option PolicySnapshot
      → Clearance
      → Option String
      → IdempotencyStore R E
      → IdempotencyStore R E × Progress R E
  unfolding progress_of begin
  launch_keyed call p c none store =
      (store, calls_upstream (record { clearance = c; idempotency_key = none }))
  launch_keyed call p c (some key) store =
      let (after, begun) = begin key store in (after, progress_of call p c key begun)

  unfoldable pub launch :
      ToolCall
      → Option PolicySnapshot
      → Option ToolClass
      → Gate
      → Option (IdempotencyStore R E)
      → Option (IdempotencyStore R E) × Progress R E
  unfolding block_result launch_keyed forward_key
  launch call p k (stopped stop) store = (store, ended (finished (block_result call k p stop)))
  launch call p k (cleared c) none =
      (none, calls_upstream (record { clearance = c; idempotency_key = none }))
  launch call p k (cleared c) (some store) =
      let (after, progress) = launch_keyed call p c (forward_key call c) store in
      (some after, progress)

  unfoldable pub begin_forward :
      (String → Value)
      → ToolCall
      → Setting
      → Option (IdempotencyStore R E)
      → Option (IdempotencyStore R E) × Progress R E
  unfolding launch gate_of resolve_policy resolve_call_by_name
  begin_forward number_of_text call setting store =
      launch call (resolve_policy setting.source).0
        (class_of (resolve_call_by_name call.tool_name call.input_schema_hash))
        (gate_of number_of_text call setting) store

  -- `settle` on the store, for a call that has started the side effect of its key.
  unfoldable pub settle_key :
      Option String → Settlement R E → Option (IdempotencyStore R E) → Option (IdempotencyStore R E)
  unfolding settle
  settle_key (some key) outcome (some store) = some (settle key outcome store)
  settle_key _ outcome store = store

  unfoldable pub end_with :
      ToolCall → Option PolicySnapshot → Pending → Bool → Settlement R E → ForwardOutcome R E
  unfolding allow_result
  end_with call p pending_call reused (fulfilled r) =
      finished (allow_result call p pending_call r reused)
  end_with call p pending_call reused (rejected e) = thrown (some e)

  -- Once the awaited promise has settled. A settled call stays as it is.
  unfoldable pub end_forward :
      ToolCall
      → Setting
      → Progress R E
      → Settlement R E
      → Option (IdempotencyStore R E)
      → Option (IdempotencyStore R E) × ForwardOutcome R E
  unfolding settle_key end_with resolve_policy
  end_forward call setting (calls_upstream pending_call) outcome store = (
    settle_key pending_call.idempotency_key outcome store,
    end_with call (resolve_policy setting.source).0 pending_call false outcome,
  )
  end_forward call setting (awaits_other pending_call) outcome store =
      (store, end_with call (resolve_policy setting.source).0 pending_call true outcome)
  end_forward call setting (ended o) outcome store = (store, o)
