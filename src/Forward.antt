-- ===== src/Forward.antt =====
-- packages/coding-agent/src/guarded-forward: guardedForward.js and guardedForwardRecord.js. A call is
-- split where it awaits the upstream: `begin_forward` runs up to there, `end_forward` once the promise
-- has settled. A record's random identifier and time, and the references of its errors, are left out.
pub mod Cleared
pub mod Run
pub mod Once
mod Tests
use Prim.Native.String.{◌++◌ as ◌+++◌}
use Prim.Native.Char.{code}
use monad_hackathon.Codes.{
  Code, ToolClass, contract_write, internal_error, llm_safety_blocked, policy_contract_unavailable,
  token_approval, transaction_execute,
}
use monad_hackathon.Digest.{CandidateDigest, build_candidate_tx_digest}
use monad_hackathon.Js.{Fields, Value, end, field, get, obj, or_else, str}
use monad_hackathon.Keccak.{keccak256}
use monad_hackathon.Policy.{PolicySnapshot}
use monad_hackathon.Policy.Evaluate.{
  AuditWriter, PolicyDecision, Verdict, allow, block, evaluate_policy,
}
use monad_hackathon.Prelude.{
  Bool, List, Option, String, [], false, if◌then◌else◌, inl, inr, none, not, some, true, ℕ, ◌⊎◌,
}
use monad_hackathon.Review.{LlmReview, ReviewVerdict, Reviewer, final_safety_review, safe}
use monad_hackathon.Review.Context.{build_llm_context}
use monad_hackathon.ToolSemantics.Registry.{ToolSemantics}
use monad_hackathon.ToolSemantics.Resolver.{Resolution, denied, resolve_call_by_name, visible}

-- DIGEST_CLASSES
abbrev pub has_digest : ToolClass → Bool
has_digest transaction_execute = true
has_digest token_approval = true
has_digest ToolClass.signature = true
has_digest contract_write = true
has_digest _ = false

-- IDEMPOTENT_CLASSES
abbrev pub is_idempotent : ToolClass → Bool
is_idempotent transaction_execute = true
is_idempotent token_approval = true
is_idempotent contract_write = true
is_idempotent _ = false

unfoldable pub derive_idempotency_key : String → String → String
derive_idempotency_key tool_name digest = keccak256 ("idem:" +++ (tool_name +++ (":" +++ digest)))

-- The policy of a call: given, failed, the result of a read of the chain, or none of these.
pub data PolicySource : Type 0 where
  given_snapshot : PolicySnapshot → PolicySource
  given_failure : Code → PolicySource
  source_read : PolicySnapshot ⊎ Code → PolicySource
  no_source : PolicySource

unfoldable pub resolve_policy : PolicySource → Option PolicySnapshot × Option Code
resolve_policy (given_snapshot p) = (some p, none)
resolve_policy (given_failure code) = (none, some code)
resolve_policy (source_read (inl p)) = (some p, none)
resolve_policy (source_read (inr code)) = (none, some code)
resolve_policy no_source = (none, some policy_contract_unavailable)

pub record ToolCall : Type 0 where
  pub tool_name : String
  pub input_schema_hash : Option String
  pub args : Fields

-- What a call is made with: the evidence, the policy's source, the reviewers, whether there is a
-- function to forward with, and the audit writer.
pub record Setting : Type 0 where
  pub evidence : Fields
  pub source : PolicySource
  pub client : Option Reviewer
  pub from_env : Option Reviewer
  pub can_forward : Bool
  pub writer : AuditWriter

-- A validated policy has no empty text and no chain 0, which the source would record as null.
pub record PolicySourceRecord : Type 0 where
  pub policy_contract_address : String
  pub policy_chain_id : ℕ
  pub policy_id : String
  pub policy_version : ℕ
  pub content_hash : String
  pub read_block_number : Option ℕ

unfoldable pub policy_source_snapshot : Option PolicySnapshot → Option PolicySourceRecord
policy_source_snapshot none = none
policy_source_snapshot (some p) = some (record {
  policy_contract_address = p.source.contract_address;
  policy_chain_id = p.source.chain_id;
  policy_id = p.policy_id;
  policy_version = p.policy_version;
  content_hash = p.content_hash;
  read_block_number = p.source.read_block_number;
})

pub record GuardedForwardRecord : Type 0 where
  pub tool_name : String
  pub tool_class : Option ToolClass
  pub decision : Verdict
  pub reason_code : Code
  pub digest : Option CandidateDigest
  pub idempotency_key : Option String
  pub policy_source : Option PolicySourceRecord
  pub llm_review : Option LlmReview

abbrev pub class_of : Resolution → Option ToolClass
class_of (visible v) = some v.semantics.tool_class
class_of (denied d) = none

-- The input of the digest. Of a name that is not set the value is undefined.
unfoldable pub candidate_of : ToolCall → Fields → Fields
unfolding get or_else
candidate_of call evidence =
    let given : String → Value = λ name. get name evidence in
    field "chain_id" (given "chain_id") (
      field "account" (or_else (given "account") (given "from")) (
        field "to" (or_else (given "to") (given "recipient")) (
          field "value" (given "value") (
            field "data" (given "data") (
              field "tool_name" (str call.tool_name) (
                field "args" (obj call.args) (
                  field "token" (given "token") (
                    field "spender" (given "spender") (
                      field "amount"
                        (or_else (or_else (given "amount") (given "amount_atomic"))
                          (given "amount_wei"))
                        (field "max_fee_per_gas_wei" (given "max_fee_per_gas_wei") (
                          field "max_priority_fee_per_gas_wei"
                            (given "max_priority_fee_per_gas_wei")
                            (field "gas_limit" (given "gas_limit") (
                              field "estimated_gas_cost_wei" (given "estimated_gas_cost_wei")
                                end)))))))))))))

-- A digest, for the classes that have one.
unfoldable pub digest_of : ToolClass → ToolCall → Fields → Option CandidateDigest
unfolding candidate_of build_candidate_tx_digest
digest_of c call evidence =
    if has_digest c then some (build_candidate_tx_digest (candidate_of call evidence)) else none

abbrev pub digest_text : Option CandidateDigest → Option String
digest_text none = none
digest_text (some d) = some d.digest

abbrev pub covered_names : Option CandidateDigest → List String
covered_names none = []
covered_names (some d) = d.covered_fields

-- Why a call is stopped, with what its record says of it, or how it was cleared.
pub record Stop : Type 0 where
  pub reason_code : Code
  pub digest : Option CandidateDigest
  pub llm_review : Option LlmReview

pub record Clearance : Type 0 where
  pub semantics : ToolSemantics
  pub policy : PolicyDecision
  pub digest : Option CandidateDigest
  pub llm_review : LlmReview

pub data Gate : Type 0 where
  stopped : Stop → Gate
  cleared : Clearance → Gate

or_code : Option Code → Code → Code
or_code none c = c
or_code (some c) d = c

-- `llmReview.verdict === 'safe'`
abbrev pub is_safe : ReviewVerdict → Bool
is_safe safe = true
is_safe _ = false

-- From the review on, up to the forward.
unfoldable pub after_review :
    ToolSemantics → PolicyDecision → Option CandidateDigest → Bool → LlmReview → Gate
unfolding or_code
after_review s policy digest can_forward review =
    if not (is_safe review.verdict)
    then stopped (record {
      reason_code = or_code review.error_code llm_safety_blocked;
      digest = digest;
      llm_review = some review;
    })
    else if not can_forward
    then stopped
        (record { reason_code = internal_error; digest = digest; llm_review = some review })
    else cleared (record { semantics = s; policy = policy; digest = digest; llm_review = review })

-- After an allow. A resolution without semantics would throw in the source; a denied tool is blocked.
unfoldable pub after_policy :
    ToolCall → Setting → Option PolicySnapshot → PolicyDecision → Resolution → Gate
unfolding after_review digest_of final_safety_review build_llm_context
after_policy call setting p policy (denied d) =
    stopped (record { reason_code = internal_error; digest = none; llm_review = none })
after_policy call setting p policy (visible v) =
    let digest = digest_of v.semantics.tool_class call setting.evidence in
    after_review v.semantics policy digest setting.can_forward (
      final_safety_review setting.client setting.from_env (
        build_llm_context call.tool_name v.semantics call.args (digest_text digest)
          (covered_names digest) setting.evidence p))

abbrev pub allows : Verdict → Bool
allows allow = true
allows block = false

-- Up to the forward, from the resolution and the policy.
unfoldable pub gate_with :
    (String → Value) → ToolCall → Setting → Resolution → Option PolicySnapshot × Option Code → Gate
unfolding evaluate_policy after_policy
gate_with number_of_text call setting resolution (p, failed_with) =
    let policy =
      evaluate_policy number_of_text (some resolution) p failed_with setting.evidence
        setting.writer in
    if not (allows policy.decision)
    then stopped (record { reason_code = policy.reason_code; digest = none; llm_review = none })
    else after_policy call setting p policy resolution

-- Up to the forward.
unfoldable pub gate_of : (String → Value) → ToolCall → Setting → Gate
unfolding gate_with resolve_call_by_name resolve_policy
gate_of number_of_text call setting =
    gate_with number_of_text call setting
      (resolve_call_by_name call.tool_name call.input_schema_hash) (resolve_policy setting.source)
