-- ===== src/Lifecycle.antt =====
-- packages/coding-agent/src/policy-contract-lifecycle/policyContractLifecycle.js, up to the call of the
-- upstream, and the record of an update. A missing address is the empty text; a record's random
-- identifier and time are left out.
pub mod Owner
mod Tests
use Prim.Native.String.{◌++◌ as ◌+++◌}
use monad_hackathon.Codes.{
  Code, internal_error, llm_safety_blocked, policy_owner_only, simulation_failed,
  simulation_unavailable, user_policy_unresolved,
}
use monad_hackathon.Consent.{ConsentCheck, check_consent}
use monad_hackathon.Digest.{CandidateDigest, build_candidate_tx_digest, candidate_json}
use monad_hackathon.Forward.{is_safe}
use monad_hackathon.Idempotency.{Begun, IdempotencyStore, begin, starts}
use monad_hackathon.Js.{
  Fields, Value, arr, end, field, get, null, num, obj, present, str, to_text, truthy, undefined,
}
use monad_hackathon.Keccak.{keccak256}
use monad_hackathon.Policy.{PolicySnapshot}
use monad_hackathon.Policy.Checks.{status_is}
use monad_hackathon.Prelude.{
  Bool, List, Option, String, if◌then◌else◌, none, not, some, str_eq, to_lower, ℕ, ◌&&◌, ◌||◌,
}
use monad_hackathon.Review.{LlmReview, Reviewer, final_safety_review}
use monad_hackathon.Review.Context.{policy_summary, strip_secrets, texts}

pub record UpdateRequest : Type 0 where
  pub kind : String
  pub requester_address : String
  pub current_policy : Option PolicySnapshot
  pub update : Fields
  pub consent : Value
  pub outcome : Value
  pub client : Option Reviewer
  pub from_env : Option Reviewer
  pub can_forward : Bool

unfoldable pub owner_check : String → Option PolicySnapshot → Option Code
unfolding to_lower
owner_check requester none = some user_policy_unresolved
owner_check requester (some p) =
    if str_eq requester "" || not (str_eq (to_lower requester) (to_lower p.source.owner_address))
    then some policy_owner_only
    else none

unfoldable pub bootstrap_check : String → Option PolicySnapshot → Option Code
bootstrap_check requester (some p) = some policy_owner_only
bootstrap_check requester none = if str_eq requester "" then some user_policy_unresolved else none

-- The code that the authorization blocks with, if it does.
unfoldable pub authorize : String → String → Option PolicySnapshot → Option Code
unfolding owner_check bootstrap_check
authorize kind requester current =
    if str_eq kind "update"
    then owner_check requester current
    else if str_eq kind "bootstrap"
    then bootstrap_check requester current
    else some internal_error

unfoldable pub simulation_code : Value → Option Code
unfolding truthy status_is
simulation_code outcome =
    if truthy outcome && status_is "success" outcome
    then none
    else if status_is "failed" outcome
    then some simulation_failed
    else some simulation_unavailable

unfoldable pub update_tool : String → String
update_tool kind = "compass_policy_" +++ kind

unfoldable pub update_digest : UpdateRequest → CandidateDigest
unfolding update_tool candidate_json build_candidate_tx_digest
update_digest r = build_candidate_tx_digest (
    field "chain_id" (num 10143) (
      field "account" (str r.requester_address) (
        field "tool_name" (str (update_tool r.kind))
          (field "data" (str (candidate_json (obj r.update))) end))))

-- What the reviewer gets; of the semantics only the name and the class are given.
unfoldable pub update_context : UpdateRequest → Value
unfolding update_tool strip_secrets update_digest texts policy_summary
update_context r =
    let d = update_digest r in
    obj (
      field "tool_name" (str (update_tool r.kind)) (
        field "semantics"
          (obj (
            field "tool_name" (str (update_tool r.kind)) (
              field "tool_class" (str "policy_admin") (
                field "state_effect" undefined (
                  field "requires_simulation" undefined (
                    field "required_fields" undefined
                      (field "required_evidence" undefined end)))))))
          (field "args" (strip_secrets 0 (strip_secrets 0 (obj r.update))) (
            field "candidate_tx_digest" (str d.digest) (
              field "covered_fields" (arr (texts d.covered_fields)) (
                field "simulation" null (
                  field "action_evidence" null
                    (field "policy" (policy_summary r.current_policy) end))))))))

pub data UpdateGate : Type 0 where
  update_blocked : Code → UpdateGate
  update_skipped : List String → UpdateGate
  update_cleared : CandidateDigest → LlmReview → UpdateGate

code_or : Option Code → Code → Code
code_or none c = c
code_or (some c) d = c

unfoldable pub review_gate : Bool → CandidateDigest → LlmReview → UpdateGate
unfolding code_or
review_gate can_forward d review =
    if not (is_safe review.verdict)
    then update_blocked (code_or review.error_code llm_safety_blocked)
    else if can_forward
    then update_cleared d review
    else update_blocked internal_error

unfoldable pub simulated_gate : Option Code → UpdateGate → UpdateGate
simulated_gate (some code_of) g = update_blocked code_of
simulated_gate none g = g

unfoldable pub consent_gate : ConsentCheck → UpdateGate → UpdateGate
consent_gate check g = if check.ok then g else update_skipped check.missing

-- Up to the forward. A check that stops the request leaves the later ones undone.
unfoldable pub update_gate : UpdateRequest → UpdateGate
unfolding authorize consent_gate check_consent simulated_gate simulation_code review_gate
    update_digest final_safety_review update_context
update_gate r = simulated_gate (authorize r.kind r.requester_address r.current_policy) (
    consent_gate (check_consent r.consent) (
      simulated_gate (simulation_code r.outcome) (
        review_gate r.can_forward (update_digest r)
          (final_safety_review r.client r.from_env (update_context r)))))

unfoldable pub update_key : UpdateRequest → String
unfolding update_digest to_lower
update_key r = keccak256 (
    "policy:"
    +++ (r.kind
        +++ (":" +++ (to_lower r.requester_address +++ (":" +++ (update_digest r).digest)))))

-- A request that is cleared starts the forward, at once where there is no store.
pub data UpdateProgress (R E : Type 0) : Type 0 where
  update_stopped : UpdateGate → UpdateProgress R E
  update_begun : CandidateDigest → LlmReview → Begun R E → UpdateProgress R E

module _ {R E : Type 0} where
  unfoldable pub launch_update :
      UpdateRequest
      → UpdateGate
      → Option (IdempotencyStore R E)
      → Option (IdempotencyStore R E) × UpdateProgress R E
  unfolding begin update_key
  launch_update r (update_cleared d review) none = (none, update_begun d review starts)
  launch_update r (update_cleared d review) (some store) =
      let (after, begun) = begin (update_key r) store in (some after, update_begun d review begun)
  launch_update r (update_blocked c) store = (store, update_stopped (update_blocked c))
  launch_update r (update_skipped names) store = (store, update_stopped (update_skipped names))

  unfoldable pub cover_policy_update :
      UpdateRequest
      → Option (IdempotencyStore R E)
      → Option (IdempotencyStore R E) × UpdateProgress R E
  unfolding update_gate launch_update
  cover_policy_update r store = launch_update r (update_gate r) store

pub record UpdateRecord : Type 0 where
  pub tool_name : String
  pub digest : CandidateDigest
  pub idempotency_key : String
  pub prior_policy_version : Option ℕ
  pub new_policy_version : Option String
  pub owner_address : String
  pub llm_review : LlmReview

prior_version : Option PolicySnapshot → Option ℕ
prior_version none = none
prior_version (some p) = some p.policy_version

owner_or : Option PolicySnapshot → String → String
unfolding to_lower
owner_or none requester = to_lower requester
owner_or (some p) requester = p.source.owner_address

-- The record of an update that the upstream has done.
unfoldable pub update_record : UpdateRequest → LlmReview → UpdateRecord
unfolding update_tool update_digest update_key prior_version owner_or present get to_text
update_record r review =
    let version = get "new_policy_version" r.update in
    record {
      tool_name = update_tool r.kind;
      digest = update_digest r;
      idempotency_key = update_key r;
      prior_policy_version = prior_version r.current_policy;
      new_policy_version = if present version then some (to_text version) else none;
      owner_address = owner_or r.current_policy r.requester_address;
      llm_review = review;
    }
