-- ===== src/Lifecycle/Tests.antt =====
-- An update by its owner, and the theorem at it.
use monad_hackathon.Codes.{policy_owner_only}
use monad_hackathon.Consent.{check_consent}
use monad_hackathon.Idempotency.{IdempotencyStore, new_store}
use monad_hackathon.Js.{end, field, num, obj, str}
use monad_hackathon.Lifecycle.{
  UpdateRequest, authorize, cover_policy_update, update_context, update_gate,
}
use monad_hackathon.Lifecycle.Owner.{IsAuthorized, begins_update, cover_policy_update-IsAuthorized}
use monad_hackathon.Policy.Checks.{status_is}
use monad_hackathon.Policy.Demo.{addr, demo_policy}
use monad_hackathon.Prelude.{String, none, refl, some, to_lower, true, ◌≡◌}
use monad_hackathon.Review.{Reviewer}
use monad_hackathon.Review.Laws.{SaysSafe, answer}

abbrev calm : Reviewer
calm context = some (obj (field "verdict" (str "safe") end))

abbrev raise_version : UpdateRequest
raise_version = record {
  kind = "update";
  requester_address = "0x00000000000000000000000000000000000000AA";
  current_policy = some demo_policy;
  update = field "new_policy_version" (num 2) end;
  consent = obj (
      field "network" (str "monad-testnet") (
        field "account" (str "a") (
          field "target" (str addr)
            (field "asset" (str "MON") (field "max_amount" (str "0") end)))));
  outcome = obj (field "status" (str "success") end);
  client = some calm;
  from_env = none;
  can_forward = true;
}

abbrev store : IdempotencyStore String String
store = new_store

-- The owner's update begins, whatever the case of the address; another's is refused.
update_run : begins_update (cover_policy_update raise_version (some store)).1 ≡ true
unfolding cover_policy_update to_lower update_gate
update_run = refl

stranger_run : authorize "update" "0xbb" (some demo_policy) ≡ some policy_owner_only
unfolding authorize to_lower
stranger_run = refl

cover_policy_update-IsAuthorized_example :
    IsAuthorized raise_version
    × ((check_consent raise_version.consent).ok ≡ true)
    × (status_is "success" raise_version.outcome ≡ true)
    × SaysSafe (answer raise_version.client raise_version.from_env (update_context raise_version))
    × (raise_version.can_forward ≡ true)
cover_policy_update-IsAuthorized_example =
    cover_policy_update-IsAuthorized raise_version (some store) update_run
