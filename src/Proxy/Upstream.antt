-- ===== src/Proxy/Upstream.antt =====
-- mcp/proxy/upstreamClient.ts. The SDK's client and transport are the record `Sdk`; every call that is
-- sent to the upstream is kept, in order, in the field `calls`. The bounded stderr buffer, which
-- nothing reads, is left out.
pub mod Connection
use Prim.Native.String.{◌++◌ as ◌+++◌}
use monad_hackathon.Js.{Fields, Value, end, field, num, obj, str}
use monad_hackathon.Prelude.{
  Bool, List, Option, String, [], false, if◌then◌else◌, length, map, none, not, some, str_eq, true,
  ℕ, ◌&&◌, ◌++◌, ◌∷◌,
}
use monad_hackathon.Proxy.Bridge.{UpstreamToolDescriptor, with_input_schema_hash}

pub record Call : Type 0 where
  pub name : String
  pub arguments : Fields

pub data Outcome {ℓ} (A : Type ℓ) : Type ℓ where
  returned : A → Outcome A
  threw : Outcome A

-- A promise under `withTimeout`: it is resolved, is rejected, or the time is up first.
pub data Settled {ℓ} (A : Type ℓ) : Type ℓ where
  resolved : A → Settled A
  rejected timed_out : Settled A

-- What `catch (err)` can tell apart.
pub data Failure : Type 0 where
  unavailable : String → Failure
  timeout : String → Failure
  other_failure : Failure

pub record Tool : Type 0 where
  pub name : String
  pub description : Option String
  pub input_schema : Option Value

-- The upstream and the SDK: whether the transport is made, the handshake, the server's name and
-- version, tools/list, and the answer to a call after the calls before it.
pub record Sdk : Type 0 where
  pub transport_made : Bool
  pub handshake : Settled (Unit {0})
  pub server_info : Option (String × String)
  pub list_tools : Settled (List Tool)
  pub respond : List Call → Call → Outcome Value

pub record UpstreamState : Type 0 where
  pub connected : Bool
  pub transport : String
  pub server_name : Option String
  pub server_version : Option String
  pub upstream_tool_count : ℕ
  pub reason : Option String

pub record UpstreamClient : Type 0 where
  pub has_client : Bool
  pub has_transport : Bool
  pub tool_names : List String
  pub tool_descriptors : List UpstreamToolDescriptor
  pub state : UpstreamState
  pub chain_ready : Bool
  pub signer_provisioned : Bool
  pub calls : List Call

-- The constructor.
unfoldable pub new_client : String → UpstreamClient
new_client transport = record {
  has_client = false;
  has_transport = false;
  tool_names = [];
  tool_descriptors = [];
  state = record {
    connected = false;
    transport = transport;
    server_name = none;
    server_version = none;
    upstream_tool_count = 0;
    reason = none;
  };
  chain_ready = false;
  signer_provisioned = false;
  calls = [];
}

-- `this.toolDescriptors.find((tool) => tool.name === name)`: the first of the name.
unfoldable pub find_descriptor :
    String → List UpstreamToolDescriptor → Option UpstreamToolDescriptor
find_descriptor name [] = none
find_descriptor name (d ∷ ds) = if str_eq d.name name then some d else find_descriptor name ds

unfoldable pub get_upstream_tool_descriptor :
    UpstreamClient → String → Option UpstreamToolDescriptor
unfolding find_descriptor
get_upstream_tool_descriptor u name = find_descriptor name u.tool_descriptors

unfoldable pub safe_reason : Failure → String
safe_reason (unavailable reason) = reason
safe_reason (timeout phase) = "timeout during " +++ phase
safe_reason other_failure = "upstream failed to start or handshake"

-- The chain that the proxy configures: `chainId`, `name`, `rpcUrl`, `nativeCurrency`.
abbrev pub add_chain_call : String → Call
add_chain_call rpc_url = record {
  name = "add_custom_chain";
  arguments = field "chainId" (num 10143) (
      field "name" (str "Monad Testnet") (
        field "rpcUrl" (str rpc_url) (
          field "nativeCurrency"
            (obj (
              field "name" (str "Monad")
                (field "symbol" (str "MON") (field "decimals" (num 18) end))))
            end)));
}

abbrev pub switch_chain_call : Call
switch_chain_call = record { name = "switch_chain"; arguments = field "chainId" (num 10143) end }

abbrev pub import_key_call : Call
import_key_call = record {
  name = "import_private_key";
  arguments = field "privateKey" (str "WALLET_PRIVATE_KEY") end;
}

abbrev pub wallet_type_call : Call
wallet_type_call = record {
  name = "set_wallet_type";
  arguments = field "type" (str "privateKey") end;
}

-- What `bootstrapMonadChain` reads of the environment: MONAD_RPC_URL, or the public one, and whether
-- one of the two signer variables is set.
pub record BootstrapEnv : Type 0 where
  pub rpc_url : String
  pub has_signer : Bool

module _ (sdk : Sdk) where
  -- `client.callTool`: the call is sent, and answered or refused.
  send : UpstreamClient → Call → UpstreamClient × Outcome Value
  send u c = (record u { calls = u.calls ++ c ∷ [] }, sdk.respond u.calls c)

  -- Two calls of which the second is made only after the first has returned.
  send_both : UpstreamClient → Call → Call → UpstreamClient × Bool
  unfolding send
  send_both u a b = elim (send u a).1 [
    | threw ↦ ((send u a).0, false)
    | returned _ ↦ elim (send (send u a).0 b).1 [
      | threw ↦ ((send (send u a).0 b).0, false)
      | returned _ ↦ ((send (send u a).0 b).0, true)
    ]
  ]

  set_chain : String → UpstreamClient → UpstreamClient
  unfolding send_both
  set_chain rpc_url u =
      let (v, done) = send_both u (add_chain_call rpc_url) switch_chain_call in
      record v { chain_ready = done }

  set_signer : UpstreamClient → UpstreamClient
  unfolding send_both
  set_signer u =
      let (v, done) = send_both u import_key_call wallet_type_call in
      record v { signer_provisioned = done }

  unfoldable pub bootstrap_monad_chain : BootstrapEnv → UpstreamClient → UpstreamClient
  unfolding set_chain set_signer
  bootstrap_monad_chain env u =
      if not u.has_client
      then u
      else if env.has_signer
      then set_signer (set_chain env.rpc_url u)
      else set_chain env.rpc_url u

  -- The `catch` of `connect`.
  fail_connect : UpstreamClient → Failure → UpstreamClient
  unfolding safe_reason
  fail_connect u err = record u {
    state = record (u.state) { connected = false; reason = some (safe_reason err) };
  }

  as_descriptor : (String → String) → Tool → UpstreamToolDescriptor
  unfolding with_input_schema_hash
  as_descriptor sha256 t = with_input_schema_hash sha256 (record {
    name = t.name;
    description = t.description;
    input_schema = t.input_schema;
    input_schema_hash = none;
    camel_input_schema_hash = none;
  })

  name_of : Option (String × String) → Option String
  name_of none = none
  name_of (some (n, v)) = some n

  version_of : Option (String × String) → Option String
  version_of none = none
  version_of (some (n, v)) = some v

  -- The client once tools/list has answered.
  listed : (String → String) → List Tool → UpstreamClient → UpstreamClient
  unfolding as_descriptor name_of version_of
  listed sha256 tools u =
      let descriptors = map (as_descriptor sha256) tools in
      let names = map (λ (d : UpstreamToolDescriptor). d.name) descriptors in
      record u {
        tool_descriptors = descriptors;
        tool_names = names;
        state = record {
          connected = true;
          transport = u.state.transport;
          server_name = name_of sdk.server_info;
          server_version = version_of sdk.server_info;
          upstream_tool_count = length names;
          reason = none;
        };
      }

  unfoldable pub connect : (String → String) → BootstrapEnv → UpstreamClient → UpstreamClient
  unfolding fail_connect listed
  connect sha256 env u =
      if not sdk.transport_made
      then fail_connect u other_failure
      else let v = record u { has_transport = true; has_client = true } in
        elim sdk.handshake [
          | rejected ↦ fail_connect v other_failure
          | timed_out ↦ fail_connect v (timeout "connect")
          | resolved _ ↦ elim sdk.list_tools [
            | rejected ↦ fail_connect v other_failure
            | timed_out ↦ fail_connect v (timeout "list")
            | resolved tools ↦ bootstrap_monad_chain env (listed sha256 tools v)
          ]
        ]

  -- `callTool`: nothing is sent unless the client is connected.
  unfoldable pub call_tool : String → Fields → UpstreamClient → UpstreamClient × Outcome Value
  unfolding send
  call_tool name args u =
      if u.has_client && u.state.connected
      then send u (record { name = name; arguments = args })
      else (u, threw)

-- `shutdown`: failures to close are ignored.
unfoldable pub shutdown : UpstreamClient → UpstreamClient
shutdown u = record u { state = record (u.state) { connected = false } }
