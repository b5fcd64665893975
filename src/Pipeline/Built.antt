-- ===== src/Pipeline/Built.antt =====
-- What a runner is made with.
use monad_hackathon.Codes.{Code, policy_source_binding_invalid}
use monad_hackathon.Idempotency.{new_store}
use monad_hackathon.Js.{Fields, Value, get, or_else, present, str, to_text, truthy}
use monad_hackathon.Js.BigInt.{big_int}
use monad_hackathon.Js.Numbers.{is_num, to_number}
use monad_hackathon.Pipeline.{
  RunnerConfig, RunnerState, build_guarded_runner, live_input, runner_of, runner_with,
}
use monad_hackathon.Prelude.{
  Bool, List, Option, String, [], ap, false, if◌then◌else◌, inl, inr, lookup, none, not, refl, some,
  some_inj, str_eq, sym, true, ◌||◌, ◌∙◌, ◌≡◌, ◌⊎◌,
}
use monad_hackathon.Review.{Reviewer}
use monad_hackathon.Rpc.{Transport, create_json_rpc_transport}
use monad_hackathon.Source.Config.{
  PolicySourceConfig, config_of, create_policy_source_config, default_schema_id, is_address,
  snapshot_options,
}
use monad_hackathon.Source.Snapshot.{SnapshotOptions, sized_hex}

abbrev pub live_options : SnapshotOptions
live_options = record {
  expected_schema_id = some default_schema_id;
  min_policy_version = 1;
  max_policy_version = none;
}

-- The runner has the address of the policy's contract, which is one, the options of the default
-- configuration, the signer of the environment, and nothing from earlier runs.
pub record IsFresh (env : List (String × String)) (address : String)
    (made : RunnerConfig × RunnerState) : Type 0 where
  pub has_address : made.0.address ≡ address
  pub well_formed : sized_hex 40 address ≡ true
  pub has_options : made.0.options ≡ live_options
  pub has_signer : made.0.signer ≡ lookup "COMPASS_DEMO_SIGNER" env
  pub unposted : made.1.rpc.posted ≡ []
  pub unforwarded : made.1.store ≡ new_store

module _ (number_of_text : String → Value) (from_env : Option Reviewer) (artifact : Fields)
    (env : List (String × String)) (rpc_url address : String) where
  abbrev made_config : PolicySourceConfig
  made_config = config_of number_of_text artifact (live_input rpc_url address) env

  config_url : str_eq rpc_url "" ≡ false → made_config.rpc_url ≡ str rpc_url
  unfolding config_of live_input get or_else truthy
  config_url e = rw (e, or_else) (rw e refl)

  config_address : str_eq address "" ≡ false → made_config.policy_contract_address ≡ str address
  unfolding config_of live_input get or_else truthy
  config_address e = rw (e, or_else) (rw e refl)

  config_chain : is_num 10143 made_config.chain_id ≡ true
  unfolding config_of live_input get or_else truthy to_number is_num
  config_chain = refl

  config_options : snapshot_options made_config ≡ some live_options
  unfolding config_of live_input get or_else truthy to_text snapshot_options big_int present
  config_options = refl

  -- The tests of the binding.
  accepted :
      (b c d : Bool) (config kept : PolicySourceConfig)
      → b ≡ true
      → d ≡ true
      → ◌≡◌ {A = PolicySourceConfig ⊎ Code}
          (if not b || not c || not d then inr policy_source_binding_invalid else inl config)
          (inl kept)
      → (c ≡ true) × (config ≡ kept)
  accepted true true true config kept e f h = (refl, cc h)
  accepted true false true config kept e f h = cc h
  accepted true c false config kept e f h = cc f
  accepted false c d config kept e f h = cc e

  bound_config :
      (kept : PolicySourceConfig)
      → str_eq rpc_url "" ≡ false
      → create_policy_source_config number_of_text artifact (live_input rpc_url address) env
        ≡ inl kept
      → (is_address made_config.policy_contract_address ≡ true) × (made_config ≡ kept)
  unfolding create_policy_source_config truthy
  bound_config kept url_set h =
      accepted _ (is_address made_config.policy_contract_address) (truthy made_config.rpc_url)
        made_config kept config_chain (ap truthy (config_url url_set) ∙ ap not url_set) h

  address_fits :
      str_eq address "" ≡ false → is_address (str address) ≡ true → sized_hex 40 address ≡ true
  unfolding is_address or_else truthy to_text
  address_fits set h = rw set at h

  new_transport :
      (rpc : Transport)
      → str_eq rpc_url "" ≡ false
      → create_json_rpc_transport rpc_url ≡ some rpc
      → rpc.posted ≡ []
  unfolding create_json_rpc_transport
  new_transport rpc set h = ap (λ (t : Transport). t.posted) (sym (some_inj (rw set at h)))

  runner_with-IsFresh :
      (config : PolicySourceConfig) (o : Option SnapshotOptions) (r : Option Transport)
      (made : RunnerConfig × RunnerState)
      → config.policy_contract_address ≡ str address
      → o ≡ some live_options
      → ((rpc : Transport) → r ≡ some rpc → rpc.posted ≡ [])
      → sized_hex 40 address ≡ true
      → runner_with (lookup "COMPASS_DEMO_SIGNER" env) from_env config o r ≡ some made
      → IsFresh env address made
  unfolding runner_with to_text
  runner_with-IsFresh config none r made e f g k h = cc f
  runner_with-IsFresh config (some options) none made e f g k h = cc h
  runner_with-IsFresh config (some options) (some rpc) made e f g k h =
      let same = sym (some_inj h) in
      record {
        has_address = ap (λ (m : RunnerConfig × RunnerState). m.0.address) same ∙ ap to_text e;
        well_formed = k;
        has_options = ap (λ (m : RunnerConfig × RunnerState). m.0.options) same ∙ some_inj f;
        has_signer = ap (λ (m : RunnerConfig × RunnerState). m.0.signer) same;
        unposted = ap (λ (m : RunnerConfig × RunnerState). m.1.rpc.posted) same ∙ g rpc refl;
        unforwarded = ap (λ (m : RunnerConfig × RunnerState). m.1.store) same;
      }

  runner_of-IsFresh :
      (o : PolicySourceConfig ⊎ Code) (made : RunnerConfig × RunnerState)
      → str_eq rpc_url "" ≡ false
      → str_eq address "" ≡ false
      → create_policy_source_config number_of_text artifact (live_input rpc_url address) env ≡ o
      → runner_of (lookup "COMPASS_DEMO_SIGNER" env) from_env o (create_json_rpc_transport rpc_url)
        ≡ some made
      → IsFresh env address made
  unfolding runner_of
  runner_of-IsFresh (inr c) made url_set address_set e h = cc h
  runner_of-IsFresh (inl config) made url_set address_set e h =
      let (fits, same) = bound_config config url_set e in
      let given = config_address address_set in
      runner_with-IsFresh config (snapshot_options config) (create_json_rpc_transport rpc_url) made
        (ap (λ (d : PolicySourceConfig). d.policy_contract_address) (sym same) ∙ given)
        (ap snapshot_options (sym same) ∙ config_options) (λ rpc f. new_transport rpc url_set f)
        (address_fits address_set (rw given at fits)) h

  -- Where the RPC's URL and the address of the contract are not empty, a runner that is made is fresh:
  -- the address is 0x and 40 hexadecimal digits, the snapshot's options are the default ones, the
  -- signer is the environment's, nothing has been posted, and no side effect has been started.
  pub build_guarded_runner-IsFresh :
      (made : RunnerConfig × RunnerState)
      → str_eq rpc_url "" ≡ false
      → str_eq address "" ≡ false
      → build_guarded_runner number_of_text from_env artifact env rpc_url address ≡ some made
      → IsFresh env address made
  unfolding build_guarded_runner
  build_guarded_runner-IsFresh made url_set address_set h =
      runner_of-IsFresh _ made url_set address_set refl h
