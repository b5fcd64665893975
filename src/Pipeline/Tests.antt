-- ===== src/Pipeline/Tests.antt =====
-- A live pipeline at concrete inputs, and the theorems at them.
use mathlib.Core.Path.{subst}
use monad_hackathon.Codes.{Code}
use monad_hackathon.Coverage.{lower, needs_consent, put_if, recipient_of, semantics_for}
use monad_hackathon.Forward.{gate_of}
use monad_hackathon.Idempotency.{new_store, rejected}
use monad_hackathon.Js.{
  Fields, Value, decimal, end, field, num, obj, present, str, to_text, truthy, undefined,
}
use monad_hackathon.Js.BigInt.{big_int, pos}
use monad_hackathon.Pipeline.{
  RunnerConfig, RunnerState, build_guarded_runner, mutation_tools, prepared, run_guarded, runner_in,
}
use monad_hackathon.Pipeline.Answered.{run_guarded-answers}
use monad_hackathon.Pipeline.Built.{IsFresh, build_guarded_runner-IsFresh}
use monad_hackathon.Pipeline.Cleared.{IsRefusal, RunIsCleared, run_guarded-cleared}
use monad_hackathon.Pipeline.Given.{mutation_tools_iff, prepared-HasStatus}
use monad_hackathon.Pipeline.Live.{live_call-cleared, live_call-recipient}
use monad_hackathon.Pipeline.Wei.{to_wei_hex, to_wei_hex-reads}
use monad_hackathon.Policy.Checks.{includes_address}
use monad_hackathon.Policy.Evaluate.{first_block}
use monad_hackathon.Prelude.{
  Option, String, [], false, if◌then◌else◌, includes, inl, inr, map, none, refl, some, str_eq,
  to_lower, true, ℕ, ◌↔◌, ◌∷◌, ◌≡◌, ◌⊎◌,
}
use monad_hackathon.Proxy.Bridge.{resolve_tool_for_call, with_input_schema_hash}
use monad_hackathon.Proxy.Interceptor.{CallInterceptor, forwarded, handle_upstream_call, ok, plan}
use monad_hackathon.Proxy.Interceptor.Guarded.{IsRefused}
use monad_hackathon.Proxy.Schemas.{parse_tool_call_args}
use monad_hackathon.Proxy.Upstream.{
  Sdk, UpstreamClient, call_tool, get_upstream_tool_descriptor, resolved, returned,
}
use monad_hackathon.Review.{Reviewer}
use monad_hackathon.Rpc.{Fetched, Posted, answered}
use monad_hackathon.Source.Demo.{demo_chain, demo_options, recipient}
use monad_hackathon.Source.Fetch.{Answers, read_answers}
use monad_hackathon.Source.Fetch.Stages.{HasCode, OnTestnet}
use monad_hackathon.ToolSemantics.Registry.{
  get_tool_semantics, get_unsupported_capability, send_transaction,
}
use monad_hackathon.ToolSemantics.Resolver.{
  classify_blocked_tool, is_dangerous, is_key_material, resolve_tool_descriptor,
}

abbrev send_hash : String
send_hash = "sha256:daead389c178e7ac445a79579bceea8fa826fe9f64c5ee015af3deabb97e3d2d"

-- A connected upstream that lists send_transaction with its reviewed hash.
abbrev wallet : UpstreamClient
wallet = record {
  has_client = true;
  has_transport = true;
  tool_names = "send_transaction" ∷ [];
  tool_descriptors =
      record {
        name = "send_transaction";
        description = none;
        input_schema = none;
        input_schema_hash = some send_hash;
        camel_input_schema_hash = none;
      }
      ∷ [];
  state = record {
    connected = true;
    transport = "stdio";
    server_name = none;
    server_version = none;
    upstream_tool_count = 1;
    reason = none;
  };
  chain_ready = true;
  signer_provisioned = false;
  calls = [];
}

-- An upstream that answers every call.
abbrev answering : Sdk
answering = record {
  transport_made = true;
  handshake = resolved tt;
  server_info = none;
  list_tools = resolved [];
  respond = λ before c. returned (str c.name);
}

abbrev calm_rpc : Posted → Fetched
calm_rpc p = answered true (
    some (
      obj
        (field "result" (str (if str_eq p.method "eth_estimateGas" then "0x5208" else "0x")) end)))

abbrev approving : Reviewer
approving context = some (obj (field "verdict" (str "safe") end))

abbrev no_numbers : String → Value
no_numbers s = undefined

abbrev reference : Code → String
reference c = "ref"

abbrev demo_config : RunnerConfig
demo_config = record {
  address = recipient;
  options = demo_options;
  signer = none;
  from_env = some approving;
}

abbrev first_state : RunnerState
first_state = record { rpc = record { last_id = 0; posted = [] }; store = new_store }

abbrev live_interceptor : CallInterceptor
live_interceptor = record {
  upstream = wallet;
  audit = record { agent_id = "claude_code"; lines = []; written = 0 };
  guarded =
      some
        (runner_in no_numbers reference calm_rpc demo_config demo_chain (rejected tt) first_state);
}

abbrev id_at : ℕ → String
id_at n = "id"

abbrev midnight : ℕ → String
midnight n = "2026-01-01T00:00:00.000Z"

abbrev as_is : String → String
as_is s = s

abbrev fields_of : Value → Option Fields
fields_of (obj fs) = some fs
fields_of v = none

abbrev payment : Value
payment = obj (field "to" (str recipient) (field "value" (str "5") end))

live_run :
    (handle_upstream_call id_at midnight answering as_is fields_of "c-1" "send_transaction" payment
      live_interceptor).1
    ≡ forwarded "send_transaction" (str "send_transaction") "c-1"
unfolding handle_upstream_call run_guarded runner_in to_lower first_block get_unsupported_capability
    classify_blocked_tool is_key_material is_dangerous get_tool_semantics gate_of put_if
    resolve_tool_for_call resolve_tool_descriptor get_upstream_tool_descriptor
    with_input_schema_hash parse_tool_call_args call_tool
live_run = refl

not-IsRefused :
    ¬ IsRefused
      (handle_upstream_call id_at midnight answering as_is fields_of "c-1" "send_transaction"
        payment live_interceptor).1
not-IsRefused h = absurd (subst IsRefused live_run h)

sending : semantics_for "send_transaction" ≡ some send_transaction
unfolding semantics_for get_tool_semantics
sending = refl

recipient_given :
    truthy (recipient_of (plan as_is fields_of live_interceptor "send_transaction" payment).1)
    ≡ true
unfolding truthy recipient_of plan parse_tool_call_args
recipient_given = refl

live_call-recipient_example :
    OnTestnet demo_chain
    × HasCode demo_chain
    × (a : Answers) × (read_answers demo_chain ≡ some a)
    × (includes_address (map to_lower a.recipients) (
          lower (recipient_of (plan as_is fields_of live_interceptor "send_transaction" payment).1))
        ≡ true)
live_call-recipient_example =
    live_call-recipient no_numbers reference calm_rpc demo_config demo_chain (rejected tt)
      first_state id_at midnight answering as_is fields_of "c-1" "send_transaction" payment
      live_interceptor refl send_transaction sending refl recipient_given not-IsRefused

live_call-cleared_example :
    RunIsCleared no_numbers reference calm_rpc demo_config demo_chain first_state "send_transaction"
      (plan as_is fields_of live_interceptor "send_transaction" payment).1
    ⊎ (((handle_upstream_call id_at midnight answering as_is fields_of "c-1" "send_transaction"
            payment live_interceptor).0.upstream
          ≡ wallet)
        × IsRefused
            (handle_upstream_call id_at midnight answering as_is fields_of "c-1" "send_transaction"
              payment live_interceptor).1)
live_call-cleared_example =
    live_call-cleared no_numbers reference calm_rpc demo_config demo_chain (rejected tt) first_state
      id_at midnight answering as_is fields_of "c-1" "send_transaction" payment live_interceptor
      refl

abbrev payment_args : Fields
payment_args = field "to" (str recipient) (field "value" (str "5") end)

run_outcome :
    (run_guarded no_numbers reference calm_rpc demo_config demo_chain
      (rejected tt)
      first_state
      "send_transaction"
      payment_args
      (call_tool answering)
      wallet).2
    ≡ ok (str "send_transaction")
unfolding run_guarded to_lower first_block get_unsupported_capability classify_blocked_tool
    is_key_material is_dangerous get_tool_semantics gate_of put_if resolve_tool_descriptor call_tool
run_outcome = refl

run_is_cleared :
    RunIsCleared no_numbers reference calm_rpc demo_config demo_chain first_state "send_transaction"
      payment_args
run_is_cleared =
    elim (run_guarded-cleared no_numbers reference calm_rpc demo_config demo_chain (rejected tt)
      first_state "send_transaction" payment_args (call_tool answering) wallet) [
        | inl s ↦ s
        | inr (same, h) ↦ absurd (subst IsRefusal run_outcome h)
      ]

upstream_answers :
    (call_tool answering "send_transaction" payment_args wallet).1
    ≡ returned (str "send_transaction")
unfolding call_tool
upstream_answers = refl

run_guarded-answers_example :
    ((run_guarded no_numbers reference calm_rpc demo_config demo_chain
        (rejected tt)
        first_state
        "send_transaction"
        payment_args
        (call_tool answering)
        wallet).1
      ≡ (call_tool answering "send_transaction" payment_args wallet).0)
    × ((run_guarded no_numbers reference calm_rpc demo_config demo_chain
          (rejected tt)
          first_state
          "send_transaction"
          payment_args
          (call_tool answering)
          wallet).2
        ≡ ok (str "send_transaction"))
run_guarded-answers_example =
    run_guarded-answers no_numbers reference calm_rpc demo_config "send_transaction" payment_args
      (rejected tt) (call_tool answering) wallet (str "send_transaction") upstream_answers
      demo_chain first_state refl run_is_cleared

-- 0.5 MON, and 10 ^ 9 wei; the number 10 ^ 21 has a text with an exponent.
wei_runs :
    (to_wei_hex (str " 0.5 ") ≡ some "0x6f05b59d3b20000")
    × (to_wei_hex (num 1000000000) ≡ some "0x3b9aca00")
    × (to_wei_hex (str "1.2.3") ≡ some "0x10a741a462780000")
    × (to_wei_hex (str "five") ≡ none)
    × (to_wei_hex (num 1000000000000000000000) ≡ none)
unfolding to_wei_hex
wei_runs = (refl, refl, refl, refl, refl)

five : to_text (str "5") ≡ decimal 5
unfolding to_text
five = refl

there : present (str "5") ≡ true
unfolding present
there = refl

to_wei_hex-reads_example :
    (h : String) × (to_wei_hex (str "5") ≡ some h) × (big_int h ≡ some (pos 5000000000000000000))
to_wei_hex-reads_example = to_wei_hex-reads (str "5") 5 there five

prepared-HasStatus_example :
    (s : String) × ((prepared no_numbers reference calm_rpc demo_config "send_transaction" end
        (record { last_id = 0; posted = [] })).1.0
      ≡ obj (field "status" (str s) end))
prepared-HasStatus_example =
    prepared-HasStatus no_numbers reference calm_rpc demo_config "send_transaction" end
      (record { last_id = 0; posted = [] }) refl

mutation_tools_iff_example :
    (includes mutation_tools "approve_token" ≡ true)
    ↔ (needs_consent (semantics_for "approve_token") ≡ true)
mutation_tools_iff_example = mutation_tools_iff "approve_token"

built_run :
    build_guarded_runner no_numbers (some approving) end [] "https://rpc.example" recipient
    ≡ some (demo_config, first_state)
unfolding build_guarded_runner
built_run = refl

build_guarded_runner-IsFresh_example : IsFresh [] recipient (demo_config, first_state)
build_guarded_runner-IsFresh_example =
    build_guarded_runner-IsFresh no_numbers (some approving) end [] "https://rpc.example" recipient
      (demo_config, first_state) refl refl built_run
