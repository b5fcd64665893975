-- ===== src/WalletAgent/Tests.antt =====
-- The theorems about the adapter at a concrete environment and tool.
use monad_hackathon.Prelude.{All, [], lookup, none, refl, ◌∷◌, ◌≡◌}
use monad_hackathon.WalletAgent.{Env, build_upstream_env, classify_tool, forward}
use monad_hackathon.WalletAgent.Command.{parse_command, parsed_as}
use monad_hackathon.WalletAgent.Command.Parsed.{Unquoted, command_line, parse_command-command_line}
use monad_hackathon.WalletAgent.Laws.{expected_value, lookup-build_upstream_env}

abbrev parent : Env
parent = ("PATH", "/bin") ∷ ("AWS_SECRET", "s") ∷ ("MONAD_DEPLOYER_PRIVATE_KEY", "0x01") ∷ []

lookup-build_upstream_env_example :
    lookup "MONAD_DEPLOYER_PRIVATE_KEY" (build_upstream_env parent)
    ≡ expected_value "MONAD_DEPLOYER_PRIVATE_KEY" parent
lookup-build_upstream_env_example = lookup-build_upstream_env "MONAD_DEPLOYER_PRIVATE_KEY" parent

-- The name of an inherited property is forwarded, with no class.
inherited_name_run : classify_tool "constructor" ≡ forward none
unfolding classify_tool
inherited_name_run = refl

plain_words : All Unquoted ("npx" ∷ "it's here" ∷ "" ∷ [])
unfolding Unquoted
plain_words = (
  (refl, (refl, (refl, tt))),
  ((refl, (refl, (refl, (refl, (refl, (refl, (refl, (refl, (refl, tt))))))))), (tt, tt)),
)

parse_command-command_line_example :
    parse_command (command_line ("npx" ∷ "it's here" ∷ "" ∷ []))
    ≡ parsed_as (record { command = "npx"; args = "it's here" ∷ "" ∷ [] })
parse_command-command_line_example =
    parse_command-command_line "npx" ("it's here" ∷ "" ∷ []) plain_words
