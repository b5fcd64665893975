-- ===== src/Consent.antt =====
-- packages/coding-agent/src/action-coverage/consentGate.js
pub mod Given
mod Tests
use monad_hackathon.Codes.{ToolClass, contract_write, token_approval, transaction_execute}
use monad_hackathon.Js.{Fields, Value, arr, end, get, null, obj, str, undefined}
use monad_hackathon.Prelude.{Bool, List, String, [], false, filter, length, str_eq, true, ◌==◌, ◌∷◌}

-- MUTATION_CLASSES, and `requiresConsent`
unfoldable pub requires_consent : ToolClass → Bool
requires_consent transaction_execute = true
requires_consent token_approval = true
requires_consent ToolClass.signature = true
requires_consent contract_write = true
requires_consent _ = false

-- `ok` and `missing`
pub record ConsentCheck : Type 0 where
  pub ok : Bool
  pub missing : List String

abbrev pub required_consent : List String
required_consent = "network" ∷ "account" ∷ "target" ∷ "asset" ∷ "max_amount" ∷ []

-- `consent[k] == null || consent[k] === ''`
unfoldable pub is_missing : Value → Bool
is_missing undefined = true
is_missing null = true
is_missing (str s) = str_eq s ""
is_missing _ = false

-- The properties of an object; an array has none of the names that are required.
check_fields : Fields → ConsentCheck
unfolding is_missing get
check_fields consent =
    let missing = filter (λ k. is_missing (get k consent)) required_consent in
    record { ok = length missing == 0; missing = missing }

unfoldable pub check_consent : Value → ConsentCheck
unfolding check_fields
check_consent (obj consent) = check_fields consent
check_consent (arr items) = check_fields end
check_consent _ = record { ok = false; missing = "consent" ∷ [] }
