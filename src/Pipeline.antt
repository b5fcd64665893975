-- ===== src/Pipeline.antt =====
-- mcp/proxy/guardedPipeline.ts: the runner of the live proxy, put together from the policy read, the
-- action coverage, the guarded forward, the review and the simulation. A run is one step here: where
-- its call waits for another run with the same key, what that one settles to is an argument.
pub mod Wei
pub mod Cleared
pub mod Live
pub mod Given
pub mod Built
pub mod Answered
mod Tests
use Prim.Native.Char.{code}
use monad_hackathon.Codes.{Code, SafeError, internal_error}
use monad_hackathon.Coverage.{
  CoverContext, Covering, call_for, cover_tool_call, guarded, setting_for, skipped,
}
use monad_hackathon.Forward.{Setting, allows, source_read}
use monad_hackathon.Forward.Run.{
  ForwardOutcome, Progress, awaits_other, calls_upstream, end_forward, ended, finished, thrown,
}
use monad_hackathon.Idempotency.{IdempotencyStore, Settlement, fulfilled, new_store, rejected}
use monad_hackathon.Js.{
  Fields, Value, end, field, get, num, obj, present, str, to_text, truthy, undefined,
}
use monad_hackathon.Pipeline.Wei.{to_wei_hex}
use monad_hackathon.Prelude.{
  List, Option, String, [], if◌then◌else◌, includes, inl, inr, lookup, none, some, true, ◌∷◌, ◌⊎◌,
}
use monad_hackathon.Proxy.Interceptor.{GuardedReply, GuardedRunner, crashed, failed, ok}
use monad_hackathon.Proxy.Upstream.{Outcome, UpstreamClient, returned, threw}
use monad_hackathon.Review.{Reviewer}
use monad_hackathon.Rpc.{Fetched, Posted, Transport, create_json_rpc_transport}
use monad_hackathon.Rpc.Simulation.{build_simulation_evidence}
use monad_hackathon.SafeErrors.{create_safe_error}
use monad_hackathon.Source.Config.{
  PolicySourceConfig, create_policy_source_config, snapshot_options,
}
use monad_hackathon.Source.Fetch.{PolicyTransport, fetch_policy_snapshot}
use monad_hackathon.Source.Snapshot.{SnapshotOptions}

-- MUTATION_TOOLS
abbrev pub mutation_tools : List String
mutation_tools = "send_transaction" ∷ "transfer_token" ∷ "approve_token" ∷ "sign_typed_data" ∷ []

-- `a ?? b`
unfoldable pub coalesce : Value → Value → Value
unfolding present
coalesce a b = if present a then a else b

unfoldable pub pipeline_recipient : Fields → Value
unfolding coalesce get
pipeline_recipient args =
    coalesce (coalesce (get "to" args) (get "recipient" args)) (get "recipientAddress" args)

unfoldable pub pipeline_amount : Fields → Value
unfolding coalesce get
pipeline_amount args = coalesce (get "value" args) (get "amount" args)

text_or_undefined : Option String → Value
text_or_undefined none = undefined
text_or_undefined (some s) = str s

-- A property that is left out where its value is not truthy.
when : String → Value → Fields → Fields
unfolding truthy
when name v rest = if truthy v then field name v rest else rest

-- The transaction that is simulated.
unfoldable pub simulated_tx : Option String → Fields → Fields
unfolding when text_or_undefined pipeline_recipient pipeline_amount to_wei_hex
simulated_tx signer args = when "from" (text_or_undefined signer) (
    when "to" (pipeline_recipient args)
      (when "value" (text_or_undefined (to_wei_hex (pipeline_amount args))) end))

-- The consent that a run of a mutation tool is given.
unfoldable pub pipeline_consent : Option String → Fields → Value
unfolding text_or_undefined coalesce pipeline_recipient pipeline_amount truthy to_text get
pipeline_consent signer args = obj (
    field "network" (str "monad-testnet") (
      field "account" (coalesce (text_or_undefined signer) (str "upstream")) (
        field "target"
          (coalesce (coalesce (pipeline_recipient args) (get "spender" args)) (str "n/a"))
          (field "asset" (str (if truthy (get "token" args) then "ERC20" else "MON"))
            (field "max_amount" (str (to_text (coalesce (pipeline_amount args) (str "0")))) end)))))

-- What the runner keeps between its runs.
pub record RunnerState : Type 0 where
  pub rpc : Transport
  pub store : IdempotencyStore Value (Unit {0})

-- What it is made with: the policy's address and options, the signer and the reviewer of the
-- environment.
pub record RunnerConfig : Type 0 where
  pub address : String
  pub options : SnapshotOptions
  pub signer : Option String
  pub from_env : Option Reviewer

-- `simulation.simulation ?? simulation`
unfoldable pub outcome_of : Value → Value
unfolding coalesce get
outcome_of (obj fs) = coalesce (get "simulation" fs) (obj fs)
outcome_of v = v

abbrev pub live_context : CoverContext
live_context = record { chain_id = num 10143; account = undefined; typed_data_rule_key = undefined }

module _ (number_of_text : String → Value) (debug_ref : Code → String) (fetch : Posted → Fetched)
    (config : RunnerConfig) where
  -- The evidence of a simulation and the consent, which only a mutation tool has.
  unfoldable pub prepared : String → Fields → Transport → Transport × (Value × Value)
  unfolding build_simulation_evidence outcome_of simulated_tx pipeline_consent
  prepared tool_name args rpc =
      let (after, evidence) =
        build_simulation_evidence fetch (simulated_tx config.signer args) none rpc in
      if includes mutation_tools tool_name
      then (after, (outcome_of evidence, pipeline_consent config.signer args))
      else (rpc, (undefined, undefined))

  -- What `coverToolCall` is given, with what the policy's contract answers.
  unfoldable pub live_setting : PolicyTransport → Setting
  unfolding fetch_policy_snapshot
  live_setting chain = record {
    evidence = end;
    source = source_read (fetch_policy_snapshot number_of_text config.address config.options chain);
    client = none;
    from_env = config.from_env;
    can_forward = true;
    writer = none;
  }

  unfoldable pub covered_call :
      PolicyTransport
      → String
      → Fields
      → Value
      → Value
      → IdempotencyStore Value (Unit {0})
      → Option (IdempotencyStore Value (Unit {0})) × Covering Value (Unit {0})
  unfolding cover_tool_call live_setting
  covered_call chain tool_name args outcome consent store =
      cover_tool_call number_of_text tool_name args live_context outcome consent
        (live_setting chain) (some store)

  -- The error of the package, as the proxy sees it.
  safe_error_of : Option Code → SafeError
  unfolding create_safe_error
  safe_error_of none = record {
    error_code = internal_error;
    safe_message = "Internal error.";
    debug_ref = none;
  }
  safe_error_of (some c) =
      let made = create_safe_error debug_ref (some c) none undefined in
      record {
        error_code = made.error_code;
        safe_message = made.safe_message;
        debug_ref = some made.debug_ref;
      }

  unfoldable pub value_or_undefined : Option Value → Value
  value_or_undefined none = undefined
  value_or_undefined (some v) = v

  -- The reply to a call that has ended.
  unfoldable pub reply_of : ForwardOutcome Value (Unit {0}) → GuardedReply
  unfolding safe_error_of value_or_undefined
  reply_of (thrown e) = crashed
  reply_of (finished r) =
      if allows r.decision then ok (value_or_undefined r.result) else failed (safe_error_of r.error)

  unfoldable pub settlement_of : Outcome Value → Settlement Value (Unit {0})
  settlement_of (returned v) = fulfilled v
  settlement_of threw = rejected tt

  -- How the call of the upstream, or that of another run, settles.
  unfoldable pub settle_call :
      (String → Fields → UpstreamClient → UpstreamClient × Outcome Value)
      → String
      → Fields
      → Settlement Value (Unit {0})
      → Progress Value (Unit {0})
      → UpstreamClient
      → UpstreamClient × Settlement Value (Unit {0})
  unfolding settlement_of
  settle_call forward tool_name args another (calls_upstream pending_call) u =
      let (after, o) = forward tool_name args u in (after, settlement_of o)
  settle_call forward tool_name args another (awaits_other pending_call) u = (u, another)
  settle_call forward tool_name args another (ended o) u = (u, another)

  store_or :
      IdempotencyStore Value (Unit {0})
      → Option (IdempotencyStore Value (Unit {0}))
      → IdempotencyStore Value (Unit {0})
  store_or store none = store
  store_or store (some s) = s

  -- The rest of a run, from what the coverage comes to.
  unfoldable pub finish :
      (String → Fields → UpstreamClient → UpstreamClient × Outcome Value)
      → String
      → Fields
      → Settlement Value (Unit {0})
      → Setting
      → Transport
      → IdempotencyStore Value (Unit {0})
      → Option (IdempotencyStore Value (Unit {0})) × Covering Value (Unit {0})
      → UpstreamClient
      → RunnerState × UpstreamClient × GuardedReply
  unfolding settle_call store_or reply_of end_forward
  finish forward tool_name args another setting rpc store (after, skipped names) u = (
    record { rpc = rpc; store = store_or store after },
    u,
    GuardedReply.skipped "consent_required",
  )
  finish forward tool_name args another setting rpc store (after, guarded progress) u =
      let (upstream, settlement) = settle_call forward tool_name args another progress u in
      let (settled, o) = end_forward (call_for tool_name args) setting progress settlement after in
      (record { rpc = rpc; store = store_or store settled }, upstream, reply_of o)

  -- `run`, with what the policy's contract answers this time.
  unfoldable pub run_guarded :
      PolicyTransport
      → Settlement Value (Unit {0})
      → RunnerState
      → String
      → Fields
      → (String → Fields → UpstreamClient → UpstreamClient × Outcome Value)
      → UpstreamClient
      → RunnerState × UpstreamClient × GuardedReply
  unfolding prepared covered_call finish
  run_guarded chain another state tool_name args forward u =
      let (rpc, (outcome, consent)) = prepared tool_name args state.rpc in
      finish forward tool_name args another
        (setting_for number_of_text tool_name args live_context outcome (live_setting chain)) rpc
        state.store (covered_call chain tool_name args outcome consent state.store) u

  -- The runner as the interceptor takes it, in a state.
  unfoldable pub runner_in :
      PolicyTransport → Settlement Value (Unit {0}) → RunnerState → GuardedRunner
  unfolding run_guarded
  runner_in chain another state tool_name args forward u =
      let (after, upstream, reply) = run_guarded chain another state tool_name args forward u in
      (upstream, reply)

-- The configuration's versions are naturals and its schema is a text.
unfoldable pub runner_with :
    Option String
    → Option Reviewer
    → PolicySourceConfig
    → Option SnapshotOptions
    → Option Transport
    → Option (RunnerConfig × RunnerState)
unfolding to_text
runner_with signer from_env config (some options) (some rpc) = some (
  record {
    address = to_text config.policy_contract_address;
    options = options;
    signer = signer;
    from_env = from_env;
  },
  record { rpc = rpc; store = new_store },
)
runner_with signer from_env config options rpc = none

unfoldable pub runner_of :
    Option String
    → Option Reviewer
    → PolicySourceConfig ⊎ Code
    → Option Transport
    → Option (RunnerConfig × RunnerState)
unfolding runner_with snapshot_options
runner_of signer from_env (inr c) rpc = none
runner_of signer from_env (inl config) rpc =
    runner_with signer from_env config (snapshot_options config) rpc

-- The input of `createPolicySourceConfig`.
unfoldable pub live_input : String → String → Fields
live_input rpc_url address = field "chain_id" (num 10143) (
    field "network_name" (str "Monad Testnet")
      (field "rpc_url" (str rpc_url) (field "policy_contract_address" (str address) end)))

-- `buildGuardedRunner`: what a runner is made with, and its first state. `none` where the binding is
-- not valid, and where the transport cannot be made, on which the source throws.
unfoldable pub build_guarded_runner :
    (String → Value)
    → Option Reviewer
    → Fields
    → List (String × String)
    → String
    → String
    → Option (RunnerConfig × RunnerState)
unfolding create_policy_source_config create_json_rpc_transport runner_of live_input
build_guarded_runner number_of_text from_env artifact env rpc_url policy_contract_address =
    runner_of (lookup "COMPASS_DEMO_SIGNER" env) from_env
      (create_policy_source_config number_of_text artifact
        (live_input rpc_url policy_contract_address) env)
      (create_json_rpc_transport rpc_url)
