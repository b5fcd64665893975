-- ===== src/Entrypoint/Tests.antt =====
-- The start of the program at a concrete command line, and the theorem about it.
use monad_hackathon.Entrypoint.{bootstrap_env, is_set, main, parse_args}
use monad_hackathon.Entrypoint.Boot.{OnlySetupAndReading, main_session}
use monad_hackathon.Js.{Fields, Value, end, obj, str}
use monad_hackathon.Prelude.{List, Option, String, [], none, refl, some, true, ℕ, ◌∷◌, ◌≡◌}
use monad_hackathon.Proxy.Interceptor.{GuardedRunner}
use monad_hackathon.Proxy.Server.{serve_all, tools_call, tools_list}
use monad_hackathon.Proxy.Server.Session.{IsReading}
use monad_hackathon.Proxy.Upstream.{Sdk, resolved, returned}
use monad_hackathon.WalletAgent.{Env}

abbrev sdk : Sdk
sdk = record {
  transport_made = true;
  handshake = resolved tt;
  server_info = some ("wallet-agent", "1.0.0");
  list_tools =
      resolved (record { name = "get_balance"; description = none; input_schema = none } ∷ []);
  respond = λ before c. returned (str c.name);
}

abbrev same_text : String → String
same_text s = s

abbrev id_of : ℕ → String
id_of n = "id"

abbrev noon : ℕ → String
noon n = "2026-01-01T12:00:00.000Z"

abbrev object_fields : Value → Option Fields
object_fields (obj fs) = some fs
object_fields v = none

abbrev no_floor : String → Option ℕ
no_floor s = none

abbrev no_runner : String → String → Option GuardedRunner
no_runner rpc_url address = none

abbrev argv : List String
argv = "--upstream" ∷ "bunx wallet" ∷ "--verbose" ∷ "--chain" ∷ "monad" ∷ []

abbrev env : Env
env = ("COMPASS_UPSTREAM_SIGNER_KEY", "0x01") ∷ []

main_session_example :
    OnlySetupAndReading sdk
      (bootstrap_env env)
      (IsReading same_text
        (main [] id_of noon sdk same_text no_runner argv env).interceptor.upstream)
      (serve_all id_of noon sdk same_text object_fields no_floor
        (tools_list ∷ tools_call "c-1" "send_transaction" (obj end) ∷ [])
        (main [] id_of noon sdk same_text no_runner argv env)).interceptor.upstream.calls
unfolding is_set
main_session_example =
    main_session [] id_of noon sdk same_text no_runner object_fields no_floor argv env
      (tools_list ∷ tools_call "c-1" "send_transaction" (obj end) ∷ []) refl

-- A flag without a value is "true", and takes no value from the flag after it.
parse_args_run :
    parse_args argv ≡ ("upstream", "bunx wallet") ∷ ("verbose", "true") ∷ ("chain", "monad") ∷ []
unfolding parse_args
parse_args_run = refl
