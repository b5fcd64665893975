-- ===== src/Digest/Covered.antt =====
-- What the digest of a candidate depends on.
use monad_hackathon.Digest.{
  build_candidate_tx_digest, candidate_json, covered, digest_fields, digest_version,
  hex_digits_only, is_hex, ordered, payload, stable,
}
use monad_hackathon.Js.{Fields, Value, end, field, get, obj, present, str}
use monad_hackathon.Keccak.{keccak256}
use monad_hackathon.Prelude.{
  Bool-cases, In, List, String, [], ap, arith, if◌then◌else◌, inl, inr, refl, suc, sym, to_lower,
  true, zero, ℕ, ◌↔◌, ◌∙◌, ◌∷◌, ◌≡◌, ◌⊎◌,
}
use monad_hackathon.Redaction.Hidden.{IsHexDigit-code, IsHexRun}

-- The covered names are those whose field is present.
pub covered_iff :
    (name : String) (names : List String) (input : Fields)
    → In name (covered names input) ↔ (In name names × (present (get name input) ≡ true))
unfolding covered
covered_iff name [] input = (λ i. absurd i, λ (i, _). absurd i)
covered_iff name (n ∷ names) input =
    let (there, back) = covered_iff name names input in
    elim (Bool-cases (present (get n input))) [
      | inl given ↦ (
        λ i. elim (simp given at i) [
          | inl same ↦ (inl same, rw same given)
          | inr later ↦ let (a, b) = there later in (inr a, b)
        ],
        λ (i, h). elim i [
          | inl same ↦ simp given (inl same)
          | inr later ↦ simp given (inr (back (later, h)))
        ],
      )
      | inr gone ↦ (
        λ i. let (a, b) = there (simp gone at i) in (inr a, b),
        λ (i, h). elim i [ inl same ↦ cc (h ∙ refl) | inr later ↦ simp gone (back (later, h)) ],
      )
    ]

present-stable : (v : Value) → present (stable v) ≡ present v
unfolding stable present
present-stable v = ground arith

present_same : (v w : Value) → stable v ≡ stable w → present v ≡ present w
present_same v w e = sym (present-stable v) ∙ ap present e ∙ present-stable w

entry_same :
    (name : String) (v w : Value) (fs gs : Fields)
    → stable v ≡ stable w
    → fs ≡ gs
    → (if present v then field name (stable v) fs else fs)
      ≡ (if present w then field name (stable w) gs else gs)
entry_same name v w fs gs e f = rw (present_same v w e) (rw e (rw f refl))

-- The two inputs agree in each field of the names, hexadecimal texts up to their case.
abbrev pub Agree : List String → Fields → Fields → Type 0
Agree [] a b = Unit
Agree (name ∷ names) a b = (stable (get name a) ≡ stable (get name b)) × Agree names a b

ordered_same :
    (names : List String) (a b : Fields) → Agree names a b → ordered names a ≡ ordered names b
unfolding ordered
ordered_same [] a b h = refl
ordered_same (n ∷ names) a b h =
    entry_same n (get n a) (get n b) (ordered names a) (ordered names b) h.0
      (ordered_same names a b h.1)

covered_same :
    (names : List String) (a b : Fields) → Agree names a b → covered names a ≡ covered names b
unfolding covered
covered_same [] a b h = refl
covered_same (n ∷ names) a b h =
    rw (present_same (get n a) (get n b) h.0) (rw (covered_same names a b h.1) refl)

payload_same :
    (a b : Fields) → ordered digest_fields a ≡ ordered digest_fields b → payload a ≡ payload b
unfolding payload
payload_same a b e =
    ap
      (λ fs.
        candidate_json
          (obj (field "digest_version" (str digest_version) (field "fields" (obj fs) end))))
      e

-- 0x and then one hexadecimal digit or more.
abbrev pub IsHexText : String → Type 0
IsHexText s =
    (n : ℕ) × (digits : String) × (s ≡ String.◌∷◌ "0" (String.◌∷◌ "x" digits))
    × IsHexRun (suc n) digits

-- The same value, or hexadecimal texts that differ in the case of their letters only.
abbrev pub SameValue : Value → Value → Type 0
SameValue v w =
    (v ≡ w)
    ⊎ ((s t : String) × (v ≡ str s)
        × (w ≡ str t)
        × IsHexText s
        × IsHexText t
        × (to_lower s ≡ to_lower t))

-- The fourteen fields that a digest is made of.
abbrev pub fields_of_digest : List String
fields_of_digest =
    "chain_id" ∷ "account" ∷ "to" ∷ "value" ∷ "data" ∷ "tool_name" ∷ "args" ∷ "token" ∷ "spender"
    ∷ "amount" ∷ "max_fee_per_gas_wei" ∷ "max_priority_fee_per_gas_wei" ∷ "gas_limit"
    ∷ "estimated_gas_cost_wei" ∷ []

abbrev pub SameFields : List String → Fields → Fields → Type 0
SameFields [] a b = Unit
SameFields (name ∷ names) a b = SameValue (get name a) (get name b) × SameFields names a b

IsHexRun-hex_digits_only : (n : ℕ) (s : String) → IsHexRun n s → hex_digits_only s ≡ true
unfolding IsHexRun hex_digits_only
IsHexRun-hex_digits_only zero String.[] h = refl
IsHexRun-hex_digits_only zero (String.◌∷◌ c s) h = absurd h
IsHexRun-hex_digits_only (suc n) String.[] h = absurd h
IsHexRun-hex_digits_only (suc n) (String.◌∷◌ c s) (d, h) =
    rw (IsHexDigit-code c d) (IsHexRun-hex_digits_only n s h)

is_hex_digits :
    (n : ℕ) (digits : String)
    → IsHexRun (suc n) digits
    → is_hex (String.◌∷◌ "0" (String.◌∷◌ "x" digits)) ≡ true
unfolding is_hex IsHexRun
is_hex_digits n String.[] h = absurd h
is_hex_digits n (String.◌∷◌ c s) h = IsHexRun-hex_digits_only (suc n) (String.◌∷◌ c s) h

IsHexText-is_hex : (s : String) → IsHexText s → is_hex s ≡ true
IsHexText-is_hex s (n, digits, e, h) = ap is_hex e ∙ is_hex_digits n digits h

stable-hex : (s : String) → IsHexText s → stable (str s) ≡ str (to_lower s)
unfolding stable
stable-hex s h = rw (IsHexText-is_hex s h) refl

SameValue-stable : (v w : Value) → SameValue v w → stable v ≡ stable w
SameValue-stable v w (inl e) = ap stable e
SameValue-stable v w (inr (s, t, e, f, hex, hex', same)) =
    ap stable e ∙ stable-hex s hex ∙ ap str same ∙ sym (stable-hex t hex') ∙ sym (ap stable f)

SameFields-Agree : (names : List String) (a b : Fields) → SameFields names a b → Agree names a b
SameFields-Agree [] a b h = tt
SameFields-Agree (n ∷ names) a b h =
    (SameValue-stable (get n a) (get n b) h.0, SameFields-Agree names a b h.1)

-- A digest is the Keccak-256 of the payload, and its covered fields are those of the fourteen that the
-- input gives, not null. Two inputs whose fourteen fields are the same, hexadecimal texts up to their
-- case, have the same digest and the same covered fields, whatever else they hold and in whatever order.
pub build_candidate_tx_digest-same :
    (a b : Fields)
    → SameFields fields_of_digest a b
    → (build_candidate_tx_digest a ≡ build_candidate_tx_digest b)
      × ((build_candidate_tx_digest a).digest ≡ keccak256 (payload a))
      × ((name : String)
          → In name (build_candidate_tx_digest a).covered_fields
            ↔ (In name fields_of_digest × (present (get name a) ≡ true)))
unfolding build_candidate_tx_digest
build_candidate_tx_digest-same a b same =
    let h = SameFields-Agree fields_of_digest a b same in
    let p = payload_same a b (ordered_same digest_fields a b h) in
    let c = covered_same digest_fields a b h in
    (
      λ i. record { digest = keccak256 (p i); covered_fields = c i },
      refl,
      λ name. covered_iff name digest_fields a,
    )
