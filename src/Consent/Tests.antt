-- ===== src/Consent/Tests.antt =====
-- The theorem about a consent at a concrete one, and an incomplete consent.
use monad_hackathon.Consent.{check_consent, is_missing}
use monad_hackathon.Consent.Given.{IsComplete, check_consent-ok_iff}
use monad_hackathon.Js.{Fields, end, field, get, num, obj, str}
use monad_hackathon.Prelude.{[], refl, true, ◌↔◌, ◌∷◌, ◌≡◌}

abbrev given : Fields
given = field "network" (str "monad-testnet") (
    field "account" (str "0x01")
      (field "target" (str "0x02") (field "asset" (str "MON") (field "max_amount" (num 5) end))))

check_consent-ok_iff_example :
    ((check_consent (obj given)).ok ≡ true) ↔ ((fs : Fields) × (obj given ≡ obj fs) × IsComplete fs)
check_consent-ok_iff_example = check_consent-ok_iff (obj given)

consent_runs :
    ((check_consent (obj given)).ok ≡ true)
    × ((check_consent (obj (field "network" (str "monad") (field "asset" (str "") end)))).missing
        ≡ "account" ∷ "target" ∷ "asset" ∷ "max_amount" ∷ [])
unfolding check_consent is_missing get
consent_runs = (refl, refl)
