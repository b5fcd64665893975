-- ===== src/Coverage/Consented.antt =====
-- When a covered call reaches the upstream, and whom it may pay.
use monad_hackathon.Codes.{transaction_execute}
use monad_hackathon.Consent.{check_consent}
use monad_hackathon.Coverage.{
  CoverContext, Covering, call_for, class_evidence, cover_tool_call, execute_evidence,
  extract_evidence, guarded, lower, needs_consent, put_if, recipient_of, semantics_for, setting_for,
  simulation_evidence, skipped, token_evidence,
}
use monad_hackathon.Forward.{Setting, resolve_policy}
use monad_hackathon.Forward.Cleared.{IsCleared, begin_forward-goes_on_iff, goes_on}
use monad_hackathon.Forward.Run.{Progress, begin_forward}
use monad_hackathon.Idempotency.{IdempotencyStore}
use monad_hackathon.Js.{
  Fields, Value, arr, bool, end, field, get, null, num, obj, other_num, put, str, truthy, undefined,
}
use monad_hackathon.Policy.{PolicySnapshot}
use monad_hackathon.Policy.Checks.{includes_address}
use monad_hackathon.Prelude.{
  Bool, List, Option, String, arith, eq_iff, eq_refl, false, if◌then◌else◌, none, not, not_empty,
  refl, some, str_eq, sym, to_lower, true, ◌&&◌, ◌↔◌, ◌∙◌, ◌≡◌,
}
use monad_hackathon.ToolSemantics.Registry.{ToolSemantics}

module _ {R E : Type 0} where
  -- The call is neither skipped nor returned blocked.
  abbrev pub covers : Covering R E → Bool
  covers (skipped names) = false
  covers (guarded progress) = goes_on progress

  consent_guard :
      (needs fine : Bool) (names : List String) (store after : Option (IdempotencyStore R E))
      (progress : Progress R E)
      → (covers
            (if◌then◌else◌ {A = Option (IdempotencyStore R E) × Covering R E}
              (needs && not fine)
              (store, skipped names)
              (after, guarded progress)).1
          ≡ true)
        ↔ ((needs ≡ true → fine ≡ true) × (goes_on progress ≡ true))
  consent_guard true true names store after progress = (λ h. (λ t. refl, h), λ (_, h). h)
  consent_guard true false names store after progress = (λ h. cc, λ (h, _). cc (h refl))
  consent_guard false fine names store after progress = (λ h. (λ t. cc, h), λ (_, h). h)

  -- A covered call is neither skipped nor blocked exactly when its consent is complete, where its class
  -- is one that changes something, and the call is cleared with the evidence of its arguments.
  pub cover_tool_call-covers_iff :
      (number_of_text : String → Value) (tool_name : String) (args : Fields) (ctx : CoverContext)
      (outcome consent : Value) (setting : Setting) (store : Option (IdempotencyStore R E))
      → (covers (cover_tool_call number_of_text tool_name args ctx outcome consent setting store).1
          ≡ true)
        ↔ ((needs_consent (semantics_for tool_name) ≡ true → (check_consent consent).ok ≡ true)
            × IsCleared number_of_text
                (call_for tool_name args)
                (setting_for number_of_text tool_name args ctx outcome setting))
  unfolding cover_tool_call
  cover_tool_call-covers_iff number_of_text tool_name args ctx outcome consent setting store =
      let call = call_for tool_name args in
      let filled = setting_for number_of_text tool_name args ctx outcome setting in
      let begun = begin_forward number_of_text call filled store in
      let (a, b) =
        consent_guard (needs_consent (semantics_for tool_name)) (check_consent consent).ok
          (check_consent consent).missing store begun.0 begun.1 in
      let (c, d) = begin_forward-goes_on_iff number_of_text call filled store in
      (λ h. let (x, y) = a h in (x, c y), λ (x, y). b (x, d y))

get-put :
    (k j : String) (v : Value) (fs : Fields)
    → get k (put j v fs) ≡ (if str_eq j k then v else get k fs)
unfolding get put
get-put k j v end = refl
get-put k j v (field i w fs) = ground (arith, get-put k j v fs, eq_iff i j, eq_iff i k, eq_iff j k)

-- An entry under another key changes nothing for a key.
kept :
    {x : Value} (b : Bool) (k j : String) (v : Value) (fs : Fields)
    → str_eq j k ≡ false
    → get k fs ≡ x
    → get k (put_if b j v fs) ≡ x
unfolding put_if
kept true k j v fs other e = get-put k j v fs ∙ rw other e
kept false k j v fs other e = e

entered : (b : Bool) (k : String) (v : Value) (fs : Fields) → b ≡ true → get k (put_if b k v fs) ≡ v
unfolding put_if
entered true k v fs h = get-put k k v fs ∙ rw (eq_refl k) refl
entered false k v fs h = cc h

amount_key : (b : Bool) → str_eq (if b then "amount_atomic" else "amount_wei") "recipient" ≡ false
amount_key true = refl
amount_key false = refl

execute_evidence-recipient :
    (args : Fields) (outcome : Value) (evidence : Fields)
    → truthy (recipient_of args) ≡ true
    → get "recipient" (execute_evidence args outcome evidence) ≡ lower (recipient_of args)
unfolding execute_evidence token_evidence simulation_evidence
execute_evidence-recipient args outcome evidence given =
    kept _ "recipient" "estimated_gas_cost_wei" _ _ refl (
      kept _ "recipient" "simulation" _ _ refl (
        kept _ "recipient" _ _ _ (amount_key (truthy (get "token" args)))
          (kept _ "recipient" "token" _ _ refl (entered _ "recipient" _ _ given))))

extract_evidence-recipient :
    (number_of_text : String → Value) (o : Option ToolSemantics) (s : ToolSemantics) (args : Fields)
    (ctx : CoverContext) (outcome : Value)
    → o ≡ some s
    → s.tool_class ≡ transaction_execute
    → truthy (recipient_of args) ≡ true
    → get "recipient" (extract_evidence number_of_text o args ctx outcome)
      ≡ lower (recipient_of args)
unfolding extract_evidence class_evidence
extract_evidence-recipient number_of_text o s args ctx outcome e k given =
    rw e (rw k (execute_evidence-recipient args outcome _ given))

lower_filled : (s : String) → str_eq (to_lower s) "" ≡ str_eq s ""
unfolding to_lower
lower_filled String.[] = refl
lower_filled (String.◌∷◌ c s) =
    not_empty (to_lower (String.◌∷◌ c s)) (λ e. cc e) ∙ sym (not_empty (String.◌∷◌ c s) (λ e. cc e))

truthy-lower : (v : Value) → truthy (lower v) ≡ truthy v
unfolding truthy lower
truthy-lower (str s) = rw (lower_filled s) refl
truthy-lower undefined = refl
truthy-lower null = refl
truthy-lower (bool b) = refl
truthy-lower (num n) = refl
truthy-lower (other_num n) = refl
truthy-lower (obj fs) = refl
truthy-lower (arr xs) = refl

-- A cleared transaction pays a recipient of the policy that was read.
pub IsCleared-recipient :
    (number_of_text : String → Value) (tool_name : String) (args : Fields) (ctx : CoverContext)
    (outcome : Value) (setting : Setting) (s : ToolSemantics)
    → semantics_for tool_name ≡ some s
    → s.tool_class ≡ transaction_execute
    → truthy (recipient_of args) ≡ true
    → (c : IsCleared number_of_text
        (call_for tool_name args)
        (setting_for number_of_text tool_name args ctx outcome setting))
    → includes_address c.policy.allowed_recipients (lower (recipient_of args)) ≡ true
unfolding setting_for
IsCleared-recipient number_of_text tool_name args ctx outcome setting s e k given c =
    let same =
      extract_evidence-recipient number_of_text (semantics_for tool_name) s args ctx outcome e k
        given in
    rw (sym same) (c.permitted.recipient (rw same (truthy-lower (recipient_of args) ∙ given)))

module _ {R E : Type 0} where
  -- Where a covered transaction goes on and its arguments name a recipient, that recipient, in lower
  -- case, is on the list of the policy that was read.
  pub cover_tool_call-recipient :
      (number_of_text : String → Value) (tool_name : String) (args : Fields) (ctx : CoverContext)
      (outcome consent : Value) (setting : Setting) (store : Option (IdempotencyStore R E))
      (s : ToolSemantics)
      → semantics_for tool_name ≡ some s
      → s.tool_class ≡ transaction_execute
      → truthy (recipient_of args) ≡ true
      → covers (cover_tool_call number_of_text tool_name args ctx outcome consent setting store).1
        ≡ true
      → (p : PolicySnapshot) × (resolve_policy setting.source ≡ (some p, none))
        × (includes_address p.allowed_recipients (lower (recipient_of args)) ≡ true)
  unfolding setting_for
  cover_tool_call-recipient number_of_text tool_name args ctx outcome consent setting store s e k
        given h =
      let (consented, c) =
        (cover_tool_call-covers_iff number_of_text tool_name args ctx outcome consent setting
            store).0
          h in
      (
        c.policy,
        c.read_policy,
        IsCleared-recipient number_of_text tool_name args ctx outcome setting s e k given c,
      )
