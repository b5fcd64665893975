-- ===== src/Consent/Given.antt =====
-- When a consent is complete.
use monad_hackathon.Consent.{check_consent, check_fields, is_missing, required_consent}
use monad_hackathon.Js.{
  Fields, Value, arr, bool, end, get, null, num, obj, other_num, str, undefined,
}
use monad_hackathon.Prelude.{
  Bool, Bool-cases, In, List, String, [], ap, arith, eq_iff, false, filter, inl, inr, length,
  not_empty, refl, sym, true, ◌==◌, ◌↔◌, ◌∙◌, ◌∷◌, ◌≡◌, ◌≢◌,
}

none_left :
    (p : String → Bool) (ks : List String)
    → (length (filter p ks) == 0) ≡ true
    → (k : String) → In k ks
    → p k ≡ false
none_left p [] h k i = absurd i
none_left p (j ∷ ks) h k i = elim (Bool-cases (p j)) [
  | inl kept ↦ ground (arith, simp kept at h)
  | inr dropped ↦ elim i [
    | inl e ↦ ap p e ∙ dropped
    | inr later ↦ none_left p ks (simp dropped at h) k later
  ]
]

none_left_of :
    (p : String → Bool) (ks : List String)
    → ((k : String) → In k ks → p k ≡ false)
    → (length (filter p ks) == 0) ≡ true
none_left_of p [] h = refl
none_left_of p (j ∷ ks) h = simp (h j (inl refl)) (none_left_of p ks (λ k i. h k (inr i)))

-- A value is given: it is not missing, not null and not the empty text.
abbrev pub IsGiven : Value → Type 0
IsGiven undefined = ⊥
IsGiven null = ⊥
IsGiven (str s) = s ≢ ""
IsGiven _ = Unit

IsGiven-iff : (v : Value) → (is_missing v ≡ false) ↔ IsGiven v
unfolding is_missing
IsGiven-iff undefined = (λ h. cc h, λ h. absurd h)
IsGiven-iff null = (λ h. cc h, λ h. absurd h)
IsGiven-iff (bool b) = (λ h. tt, λ h. refl)
IsGiven-iff (num n) = (λ h. tt, λ h. refl)
IsGiven-iff (other_num t) = (λ h. tt, λ h. refl)
IsGiven-iff (str s) = (λ h e. cc (sym h ∙ (eq_iff s "").1 e), λ h. not_empty s h)
IsGiven-iff (obj fs) = (λ h. tt, λ h. refl)
IsGiven-iff (arr xs) = (λ h. tt, λ h. refl)

-- What a complete consent gives.
pub record IsComplete (fs : Fields) : Type 0 where
  pub network : IsGiven (get "network" fs)
  pub account : IsGiven (get "account" fs)
  pub target : IsGiven (get "target" fs)
  pub asset : IsGiven (get "asset" fs)
  pub max_amount : IsGiven (get "max_amount" fs)

AllGiven : Fields → Type 0
AllGiven fs = (k : String) → In k required_consent → is_missing (get k fs) ≡ false

AllGiven-IsComplete : (fs : Fields) → AllGiven fs → IsComplete fs
unfolding AllGiven
AllGiven-IsComplete fs h = record {
  network = (IsGiven-iff _).0 (h "network" (inl refl));
  account = (IsGiven-iff _).0 (h "account" (inr (inl refl)));
  target = (IsGiven-iff _).0 (h "target" (inr (inr (inl refl))));
  asset = (IsGiven-iff _).0 (h "asset" (inr (inr (inr (inl refl)))));
  max_amount = (IsGiven-iff _).0 (h "max_amount" (inr (inr (inr (inr (inl refl))))));
}

given_at :
    (fs : Fields) (k name : String)
    → k ≡ name
    → IsGiven (get name fs)
    → is_missing (get k fs) ≡ false
given_at fs k name e h = ap (λ n. is_missing (get n fs)) e ∙ (IsGiven-iff _).1 h

IsComplete-AllGiven : (fs : Fields) → IsComplete fs → AllGiven fs
unfolding AllGiven
IsComplete-AllGiven fs h k i = elim i [
  | inl e ↦ given_at fs k "network" e h.network
  | inr (inl e) ↦ given_at fs k "account" e h.account
  | inr (inr (inl e)) ↦ given_at fs k "target" e h.target
  | inr (inr (inr (inl e))) ↦ given_at fs k "asset" e h.asset
  | inr (inr (inr (inr (inl e)))) ↦ given_at fs k "max_amount" e h.max_amount
  | inr (inr (inr (inr (inr e)))) ↦ absurd e
]

complete_end : AllGiven end → ⊥
unfolding AllGiven is_missing get
complete_end h = cc (h "network" (inl refl))

-- A consent is accepted exactly when it is an object that gives a value, not null and not the empty
-- text, to each of network, account, target, asset and max_amount.
pub check_consent-ok_iff :
    (consent : Value)
    → ((check_consent consent).ok ≡ true) ↔ ((fs : Fields) × (consent ≡ obj fs) × IsComplete fs)
unfolding check_consent check_fields AllGiven
check_consent-ok_iff (obj consent) = (
  λ h. (
    consent,
    refl,
    AllGiven-IsComplete consent (none_left (λ k. is_missing (get k consent)) required_consent h),
  ),
  λ (fs, e, h).
      let f : consent ≡ fs = cc in
      none_left_of (λ k. is_missing (get k consent)) required_consent
        (λ k i. ap (λ x. is_missing (get k x)) f ∙ IsComplete-AllGiven fs h k i),
)
check_consent-ok_iff (arr items) = (
  λ h. absurd (complete_end (none_left (λ k. is_missing (get k end)) required_consent h)),
  λ (fs, e, h). cc,
)
check_consent-ok_iff _ = (λ h. cc, λ (fs, e, h). cc)
