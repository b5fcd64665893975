-- ===== src/Entrypoint.antt =====
-- bin/compass-proxy.ts: the command line, the configuration, and `main` up to the point where the
-- server listens. The signal handlers are not modelled.
pub mod Boot
mod Tests
use Prim.Native.Char.{code}
use monad_hackathon.Audit.{
  AuditAction, AuditInput, AuditLog, AuditResult, Line, append_event, proxy_started, success,
  system, upstream_connected,
}
use monad_hackathon.Constants.{defaults}
use monad_hackathon.Js.{Fields, Value, end, field, num, str, undefined}
use monad_hackathon.Prelude.{
  Bool, List, Option, String, [], false, if◌then◌else◌, lookup, none, not, some, str_eq, true, ℕ,
  ◌&&◌, ◌==◌, ◌||◌, ◌∷◌,
}
use monad_hackathon.Proxy.Interceptor.{GuardedRunner}
use monad_hackathon.Proxy.Server.{ProxyConfig, ProxyServer}
use monad_hackathon.Proxy.Upstream.{BootstrapEnv, Sdk, UpstreamState, connect, new_client}
use monad_hackathon.WalletAgent.{Env, or_nullish}

-- `arg.startsWith("--")`
starts_with_dashes : String → Bool
starts_with_dashes (String.◌∷◌ a (String.◌∷◌ b s)) = (code a == 45) && (code b == 45)
starts_with_dashes _ = false

-- `arg.slice(2)`
without_dashes : String → String
without_dashes (String.◌∷◌ a (String.◌∷◌ b s)) = s
without_dashes _ = ""

-- `out[key] = value`
assign : String → String → Env → Env
assign key value [] = (key, value) ∷ []
assign key value ((k, v) ∷ out) =
    let rest = assign key value out in if str_eq k key then (key, value) ∷ out else (k, v) ∷ rest

-- The loop of `parseArgs`, with what it has found so far.
parse_args_from : List String → Env → Env
unfolding starts_with_dashes without_dashes assign
parse_args_from [] out = out
parse_args_from (arg ∷ []) out =
    if starts_with_dashes arg then assign (without_dashes arg) "true" out else out
parse_args_from (arg ∷ next ∷ argv) out =
    if starts_with_dashes arg
    then if starts_with_dashes next
      then parse_args_from (next ∷ argv) (assign (without_dashes arg) "true" out)
      else parse_args_from argv (assign (without_dashes arg) next out)
    else parse_args_from (next ∷ argv) out

unfoldable pub parse_args : List String → Env
unfolding parse_args_from
parse_args argv = parse_args_from argv []

or_default : Option String → String → String
or_default none d = d
or_default (some s) d = s

unfoldable pub resolve_config : List String → Env → ProxyConfig
unfolding parse_args or_default
resolve_config argv env =
    let flags = parse_args argv in
    record {
      upstream_command =
          or_default (or_nullish (lookup "upstream" flags) (lookup "COMPASS_UPSTREAM_CMD" env))
            defaults.upstream_command;
      upstream_transport =
          or_default (lookup "COMPASS_UPSTREAM_TRANSPORT" env) defaults.upstream_transport;
      chain_label = or_default (lookup "chain" flags) defaults.chain_label;
      policy_path = or_nullish (lookup "policy" flags) (lookup "COMPASS_POLICY_PATH" env);
      audit_path = or_default (lookup "COMPASS_AUDIT_PATH" env) defaults.audit_path;
      agent_id = or_default (lookup "COMPASS_DEMO_AGENT_ID" env) defaults.agent_id;
      connect_timeout_ms = defaults.connect_timeout_ms;
      call_timeout_ms = defaults.call_timeout_ms;
    }

-- A variable that is set and not empty.
unfoldable pub is_set : String → Env → Bool
is_set k env = elim (lookup k env) [ none ↦ false | some v ↦ not (str_eq v "") ]

-- What `connect` reads of the environment.
unfoldable pub bootstrap_env : Env → BootstrapEnv
unfolding is_set or_default
bootstrap_env env = record {
  rpc_url =
      if is_set "MONAD_RPC_URL" env
      then or_default (lookup "MONAD_RPC_URL" env) ""
      else "https://testnet-rpc.monad.xyz";
  has_signer = is_set "COMPASS_UPSTREAM_SIGNER_KEY" env || is_set "MONAD_DEPLOYER_PRIVATE_KEY" env;
}

-- An audit entry of the system.
system_entry : AuditAction → AuditResult → Fields → AuditInput
system_entry action result metadata = record {
  action = action;
  result = result;
  source = some system;
  correlation_id = none;
  tool_name = none;
  tool_class = none;
  error_code = none;
  metadata = some metadata;
}

-- `s ?? undefined`
or_undefined : Option String → Value
or_undefined none = undefined
or_undefined (some s) = str s

connection_entry : UpstreamState → AuditInput
unfolding system_entry or_undefined
connection_entry state =
    if state.connected
    then system_entry upstream_connected success (
        field "server_name" (or_undefined state.server_name) (
          field "server_version" (or_undefined state.server_version)
            (field "upstream_tool_count" (num state.upstream_tool_count) end)))
    else system_entry AuditAction.upstream_unavailable AuditResult.failed
        (field "reason_code" (str "upstream_connect_failed") end)

is_some : Option GuardedRunner → Bool
is_some none = false
is_some (some g) = true

guarded_entry : Option GuardedRunner → AuditInput
unfolding system_entry
guarded_entry (some g) =
    system_entry proxy_started success (field "reason_code" (str "guarded_pipeline_enabled") end)
guarded_entry none =
    system_entry AuditAction.upstream_unavailable AuditResult.failed
      (field "reason_code" (str "guarded_pipeline_config_invalid") end)

-- `build_guarded_runner` is `buildGuardedRunner` of mcp/proxy/guardedPipeline.ts, from the RPC's URL
-- and the contract's address; `lines` are the lines that the audit file has already.
module _ (lines : List Line) (uuid now_iso : ℕ → String) (sdk : Sdk) (sha256 : String → String)
    (build_guarded_runner : String → String → Option GuardedRunner) where
  guarded_of : Env → Option GuardedRunner
  unfolding is_set or_default
  guarded_of env =
      if is_set "POLICY_CONTRACT_ADDRESS" env && is_set "MONAD_RPC_URL" env
      then build_guarded_runner (or_default (lookup "MONAD_RPC_URL" env) "")
          (or_default (lookup "POLICY_CONTRACT_ADDRESS" env) "")
      else none

  with_guarded_entry : Env → AuditLog → AuditLog
  unfolding guarded_of guarded_entry append_event
  with_guarded_entry env audit =
      if is_set "POLICY_CONTRACT_ADDRESS" env && is_set "MONAD_RPC_URL" env
      then append_event uuid now_iso audit (guarded_entry (guarded_of env))
      else audit

  started_log : ProxyConfig → AuditLog
  unfolding system_entry append_event
  started_log config =
      append_event uuid now_iso (record { agent_id = config.agent_id; lines = lines; written = 0 })
        (system_entry proxy_started success (
          field "transport" (str config.upstream_transport)
            (field "chain_label" (str config.chain_label) end)))

  -- `main`: the server that listens.
  unfoldable pub main : List String → Env → ProxyServer
  unfolding resolve_config bootstrap_env connection_entry is_some with_guarded_entry started_log
  main argv env =
      let config = resolve_config argv env in
      let upstream =
        connect sdk sha256 (bootstrap_env env) (new_client config.upstream_transport) in
      let audit =
        append_event uuid now_iso (started_log config) (connection_entry upstream.state) in
      let guarded = guarded_of env in
      record {
        config = config;
        guarded_active = is_some guarded;
        interceptor = record {
          upstream = upstream;
          audit = with_guarded_entry env audit;
          guarded = guarded;
        };
      }
