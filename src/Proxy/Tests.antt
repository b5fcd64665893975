-- ===== src/Proxy/Tests.antt =====
-- The theorems about the proxy at concrete states, and runs of it.
use monad_hackathon.Audit.{AuditEvent, AuditLog, event, non_empty_text, pending, tool_call_received}
use monad_hackathon.Js.{Fields, Value, end, obj, str}
use monad_hackathon.Prelude.{
  In, List, Option, String, [], false, inl, none, refl, some, true, ℕ, ◌++◌, ◌↔◌, ◌∷◌, ◌≡◌,
}
use monad_hackathon.Proxy.Bridge.{
  HostVisibleTool, UpstreamToolDescriptor, filter_host_exposed_tools, resolve_tool_for_call,
  with_input_schema_hash,
}
use monad_hackathon.Proxy.Bridge.Exposure.{IsSource, exposed_iff}
use monad_hackathon.Proxy.Interceptor.{CallInterceptor, forwarded, handle_upstream_call}
use monad_hackathon.Proxy.Interceptor.Safety.{IsReadingCall}
use monad_hackathon.Proxy.Interceptor.Trail.{Matches, handle_upstream_call_trail}
use monad_hackathon.Proxy.Schemas.{parse_tool_call_args}
use monad_hackathon.Proxy.Server.{ProxyServer, Request, serve_all, tools_call, tools_list}
use monad_hackathon.Proxy.Server.Session.{HasSent, IsReading, serve_all-HasSent}
use monad_hackathon.Proxy.Upstream.{
  BootstrapEnv, Call, Sdk, Tool, UpstreamClient, add_chain_call, bootstrap_monad_chain, call_tool,
  connect, get_upstream_tool_descriptor, new_client, rejected, resolved, returned,
  switch_chain_call, threw, timed_out,
}
use monad_hackathon.Proxy.Upstream.Connection.{
  Sends, SignerPart, connect-reason, connect_calls, connect_connected_iff,
}
use monad_hackathon.ToolSemantics.Registry.{
  get_balance, get_tool_semantics, get_unsupported_capability,
}
use monad_hackathon.ToolSemantics.Resolver.{
  classify_blocked_tool, hash_matches, input_schema_hash_of, is_dangerous, is_key_material,
  resolve_tool_descriptor, tool_name_of,
}

-- A connected upstream that lists get_balance with its reviewed hash.
abbrev balance_hash : String
balance_hash = "sha256:2c2d95dea1a265e86547d4318ae22fcc8e89e5869281734ee94ada3c56eeb516"

abbrev balance_descriptor : UpstreamToolDescriptor
balance_descriptor = record {
  name = "get_balance";
  description = none;
  input_schema = none;
  input_schema_hash = some balance_hash;
  camel_input_schema_hash = none;
}

abbrev connected_client : UpstreamClient
connected_client = record {
  has_client = true;
  has_transport = true;
  tool_names = "get_balance" ∷ [];
  tool_descriptors = balance_descriptor ∷ [];
  state = record {
    connected = true;
    transport = "stdio";
    server_name = some "wallet-agent";
    server_version = none;
    upstream_tool_count = 1;
    reason = none;
  };
  chain_ready = true;
  signer_provisioned = false;
  calls = [];
}

-- An upstream that answers every call, and lists no tool.
abbrev good_sdk : Sdk
good_sdk = record {
  transport_made = true;
  handshake = resolved tt;
  server_info = some ("wallet-agent", "1.0.0");
  list_tools = resolved [];
  respond = λ before c. returned (str c.name);
}

-- An upstream whose handshake takes too long.
abbrev slow_sdk : Sdk
slow_sdk = record {
  transport_made = true;
  handshake = timed_out;
  server_info = none;
  list_tools = rejected;
  respond = λ before c. threw;
}

abbrev same_text : String → String
same_text s = s

abbrev id_of : ℕ → String
id_of n = "id"

abbrev noon : ℕ → String
noon n = "2026-01-01T12:00:00.000Z"

-- An object is a record of arguments.
abbrev object_fields : Value → Option Fields
object_fields (obj fs) = some fs
object_fields v = none

abbrev empty_log : AuditLog
empty_log = record { agent_id = "claude_code"; lines = []; written = 0 }

abbrev interceptor : CallInterceptor
interceptor = record { upstream = connected_client; audit = empty_log; guarded = none }

abbrev local_env : BootstrapEnv
local_env = record { rpc_url = "http://localhost"; has_signer = true }

handle_upstream_call_trail_example :
    (received settled : AuditEvent) × ((handle_upstream_call id_of noon good_sdk same_text
        object_fields "c-1" "get_balance"
        (obj end)
        interceptor).0.audit.lines
      ≡ [] ++ event received ∷ event settled ∷ [])
    × (received.action ≡ tool_call_received)
    × (received.result ≡ pending)
    × Matches settled
        (handle_upstream_call id_of noon good_sdk same_text object_fields "c-1" "get_balance"
          (obj end)
          interceptor).1
    × (received.correlation_id ≡ non_empty_text (some "c-1"))
    × (settled.correlation_id ≡ non_empty_text (some "c-1"))
handle_upstream_call_trail_example =
    handle_upstream_call_trail id_of noon good_sdk same_text object_fields "c-1" "get_balance"
      (obj end) interceptor

-- The call is sent, and its answer is what the host gets.
run_get_balance :
    ((handle_upstream_call id_of noon good_sdk same_text object_fields "c-1" "get_balance"
        (obj end)
        interceptor).1
      ≡ forwarded "get_balance" (str "get_balance") "c-1")
    × ((handle_upstream_call id_of noon good_sdk same_text object_fields "c-1" "send_transaction"
          (obj end)
          interceptor).0.upstream
        ≡ connected_client)
unfolding handle_upstream_call parse_tool_call_args resolve_tool_for_call
    get_upstream_tool_descriptor resolve_tool_descriptor get_unsupported_capability
    classify_blocked_tool is_key_material is_dangerous get_tool_semantics call_tool
run_get_balance = (refl, refl)

exposed_iff_example :
    ((t : HostVisibleTool) × In t
        (filter_host_exposed_tools same_text (balance_descriptor ∷ []) false)
      × (t.semantics ≡ get_balance))
    ↔ IsSource same_text (balance_descriptor ∷ []) false get_balance
exposed_iff_example = exposed_iff same_text (balance_descriptor ∷ []) false get_balance

connect_connected_iff_example :
    ((connect good_sdk same_text local_env (new_client "stdio")).state.connected ≡ true) ↔ (
      (good_sdk.transport_made ≡ true)
      × (good_sdk.handshake ≡ resolved tt)
      × ((tools : List Tool) × (good_sdk.list_tools ≡ resolved tools)))
connect_connected_iff_example =
    connect_connected_iff good_sdk same_text local_env (new_client "stdio")

connect-reason_example :
    ((connect slow_sdk same_text local_env (new_client "stdio")).calls ≡ (new_client "stdio").calls)
    × ((reason : String) × ((connect slow_sdk same_text local_env (new_client "stdio")).state.reason
          ≡ some reason)
        × In reason (
            "timeout during connect" ∷ "timeout during list"
            ∷ "upstream failed to start or handshake" ∷ []))
unfolding connect
connect-reason_example = connect-reason slow_sdk same_text local_env (new_client "stdio") refl

connect_calls_example :
    (chain signer : List Call) × ((connect good_sdk same_text local_env (new_client "stdio")).calls
      ≡ (new_client "stdio").calls ++ (chain ++ signer))
    × Sends good_sdk
        (new_client "stdio").calls
        (add_chain_call "http://localhost")
        switch_chain_call
        chain
    × SignerPart good_sdk ((new_client "stdio").calls ++ chain) true signer
unfolding connect bootstrap_monad_chain
connect_calls_example = connect_calls good_sdk same_text local_env (new_client "stdio") refl

abbrev server : ProxyServer
server = record {
  config = record {
    upstream_command = "bunx wallet-agent@latest";
    upstream_transport = "stdio";
    chain_label = "monad-testnet";
    policy_path = none;
    audit_path = "./.compass/audit.jsonl";
    agent_id = "claude_code";
    connect_timeout_ms = 30000;
    call_timeout_ms = 30000;
  };
  guarded_active = false;
  interceptor = interceptor;
}

abbrev no_floor : String → Option ℕ
no_floor s = none

abbrev session : List Request
session =
    tools_list
    ∷ tools_call "c-1" "get_balance" (obj end)
    ∷ tools_call "c-2" "send_transaction" (obj end)
    ∷ tools_call "c-3" "compass_status" (obj end)
    ∷ []

serve_all-HasSent_example :
    HasSent
      (IsReading same_text connected_client)
      connected_client
      (serve_all id_of noon good_sdk same_text object_fields no_floor session
        server).interceptor.upstream
serve_all-HasSent_example =
    serve_all-HasSent id_of noon good_sdk same_text object_fields no_floor session server refl

-- The reading call that get_balance is at this client.
balance_call : IsReadingCall same_text connected_client "get_balance"
unfolding with_input_schema_hash resolve_tool_descriptor get_unsupported_capability is_key_material
    get_tool_semantics tool_name_of input_schema_hash_of hash_matches
balance_call = record {
  semantics = get_balance;
  callable = record {
    descriptor = balance_descriptor;
    listed = inl refl;
    resolution = record {
      tool_name = some "get_balance";
      semantics = get_balance;
      matched_input_schema_hash = some balance_hash;
    };
    accepted = record {
      name = refl;
      supported = refl;
      harmless = refl;
      registered = refl;
      hash = refl;
      reviewed = (balance_hash, refl, λ e. cc e, refl);
    };
    named = refl;
    semantics = refl;
  };
  connected = refl;
  allowed = refl;
  reading = inl refl;
  effect_free = refl;
}
