-- ===== src/Entrypoint/Boot.antt =====
-- What the upstream is sent from the start of the program on.
use monad_hackathon.Audit.{Line}
use monad_hackathon.Entrypoint.{bootstrap_env, guarded_of, is_set, main}
use monad_hackathon.Js.{Fields, Value}
use monad_hackathon.Prelude.{
  All, Bool-cases, List, Option, String, [], false, inl, inr, ℕ, ◌++◌, ◌≡◌, ◌⊎◌,
}
use monad_hackathon.Proxy.Interceptor.{GuardedRunner}
use monad_hackathon.Proxy.Server.{Request, serve_all}
use monad_hackathon.Proxy.Server.Session.{IsReading, serve_all-HasSent}
use monad_hackathon.Proxy.Upstream.{
  BootstrapEnv, Call, Sdk, add_chain_call, connect, new_client, switch_chain_call,
}
use monad_hackathon.Proxy.Upstream.Connection.{Sends, SignerPart, connect-reason, connect_calls}
use monad_hackathon.WalletAgent.{Env}

-- The calls that set the upstream up: none, or those for the chain and then those for the signer.
abbrev pub IsSetup : Sdk → BootstrapEnv → List Call → Type 0
IsSetup sdk env setup =
    (setup ≡ [])
    ⊎ ((chain signer : List Call) × (setup ≡ chain ++ signer)
        × Sends sdk [] (add_chain_call env.rpc_url) switch_chain_call chain
        × SignerPart sdk chain env.has_signer signer)

module _ (sdk : Sdk) (sha256 : String → String) (env : BootstrapEnv) (transport : String) where
  connect-IsSetup : IsSetup sdk env (connect sdk sha256 env (new_client transport)).calls
  unfolding new_client
  connect-IsSetup =
      elim (Bool-cases (connect sdk sha256 env (new_client transport)).state.connected) [
        | inl on ↦ inr (connect_calls sdk sha256 env (new_client transport) on)
        | inr off ↦ inl (connect-reason sdk sha256 env (new_client transport) off).0
      ]

-- The calls that the upstream has been sent once the program has started and served some requests.
abbrev pub OnlySetupAndReading : Sdk → BootstrapEnv → (Call → Type 0) → List Call → Type 0
OnlySetupAndReading sdk env Safe calls =
    (setup reading : List Call) × (calls ≡ setup ++ reading)
    × IsSetup sdk env setup
    × All Safe reading

-- Where the environment names no policy contract, whatever the command line and whatever the host
-- asks, the upstream is sent first the calls of its setup, and then only reading calls of the tools
-- that it lists: the setup is empty, or add_custom_chain, switch_chain if that is answered, and only if
-- a signer is named import_private_key with a variable's name, and set_wallet_type if that is answered.
pub main_session :
    (lines : List Line) (uuid now_iso : ℕ → String) (sdk : Sdk) (sha256 : String → String)
    (build_guarded_runner : String → String → Option GuardedRunner)
    (record_of : Value → Option Fields) (floor_positive : String → Option ℕ) (argv : List String)
    (env : Env) (qs : List Request)
    → is_set "POLICY_CONTRACT_ADDRESS" env ≡ false
    → OnlySetupAndReading sdk
        (bootstrap_env env)
        (IsReading sha256
          (main lines uuid now_iso sdk sha256 build_guarded_runner argv env).interceptor.upstream)
        (serve_all uuid now_iso sdk sha256 record_of floor_positive qs (
          main lines uuid now_iso sdk sha256 build_guarded_runner argv
            env)).interceptor.upstream.calls
unfolding main guarded_of
main_session lines uuid now_iso sdk sha256 build_guarded_runner record_of floor_positive argv env qs
      h =
    let s = main lines uuid now_iso sdk sha256 build_guarded_runner argv env in
    let (xs, e, safe) =
      serve_all-HasSent uuid now_iso sdk sha256 record_of floor_positive qs s (simp h) in
    (s.interceptor.upstream.calls, xs, e, connect-IsSetup sdk sha256 (bootstrap_env env) _, safe)
