-- ===== src/Constants.antt =====
-- shared/constants/index.ts
use monad_hackathon.Codes.{
  ToolClass, private_key_management, read_only, simulation, token_approval, transaction_execute,
}
use monad_hackathon.Prelude.{List, String, [], ℕ, ◌∷◌}

abbrev pub meta_tools : List String
meta_tools = "compass_status" ∷ "compass_audit_events" ∷ []

-- PROVISIONAL_READONLY_ALLOWLIST
abbrev pub provisional_readonly_allowlist : List (String × ToolClass)
provisional_readonly_allowlist =
    ("get_wallet_info", read_only)
    ∷ ("get_balance", read_only)
    ∷ ("get_token_balance", read_only)
    ∷ ("estimate_gas", simulation)
    ∷ ("simulate_transaction", simulation)
    ∷ []

-- ALWAYS_BLOCKED_TOOLS
abbrev pub always_blocked_tools : List (String × ToolClass)
always_blocked_tools =
    ("send_transaction", transaction_execute)
    ∷ ("transfer_token", transaction_execute)
    ∷ ("approve_token", token_approval)
    ∷ ("sign_typed_data", ToolClass.signature)
    ∷ ("sign_message", ToolClass.signature)
    ∷ ("import_private_key", private_key_management)
    ∷ ("create_encrypted_keystore", private_key_management)
    ∷ ("unlock_keystore", private_key_management)
    ∷ ("import_encrypted_private_key", private_key_management)
    ∷ ("remove_private_key", private_key_management)
    ∷ []

-- DEFAULTS
pub record Defaults : Type 0 where
  pub upstream_command : String
  pub upstream_transport : String
  pub chain_label : String
  pub audit_path : String
  pub agent_id : String
  pub connect_timeout_ms : ℕ
  pub call_timeout_ms : ℕ
  pub npm_registry : String

abbrev pub defaults : Defaults
defaults = record {
  upstream_command = "bunx wallet-agent@latest";
  upstream_transport = "stdio";
  chain_label = "monad-testnet";
  audit_path = "./.compass/audit.jsonl";
  agent_id = "claude_code";
  connect_timeout_ms = 30000;
  call_timeout_ms = 30000;
  npm_registry = "https://registry.npmjs.org/";
}

-- UPSTREAM_ENV_ALLOWLIST
abbrev pub upstream_env_allowlist : List String
upstream_env_allowlist =
    "PATH" ∷ "HOME" ∷ "SHELL" ∷ "LANG" ∷ "LC_ALL" ∷ "TMPDIR" ∷ "TERM" ∷ "USER" ∷ "BUN_INSTALL" ∷ []
