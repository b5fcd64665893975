-- ===== src/Redaction/Hidden.antt =====
-- What a redacted value shows.
use Prim.Native.Nat.{max}
use Prim.Native.Char.{Char, code}
use monad_hackathon.Js.{
  Fields, Items, Value, arr, bool, cons, end, field, keys, nil, null, num, obj, other_num, str,
  undefined,
}
use monad_hackathon.Prelude.{
  Bool, Bool-cases, In, String, ap, arith, false, if◌then◌else◌, inl, inr, ltb, refl, suc, sym,
  to_lower, true, zero, ℕ, ◌&&◌, ◌+◌, ◌==◌, ◌||◌, ◌∙◌, ◌≡◌, ◌≢◌, ◌≤◌, ◌⊎◌,
}
use monad_hackathon.Redaction.{
  hex_run, is_allowed, is_hex_code, is_secret_key, is_secret_text, private_hex,
  redact_audit_metadata, redact_fields, redact_items, redact_value, url_secret_re,
}
use monad_hackathon.ToolSemantics.Patterns.{match, match_lit, test}

-- The second text starts with the first.
unfoldable pub starts_with : String → String → Bool
starts_with String.[] s = true
starts_with (String.◌∷◌ c p) String.[] = false
starts_with (String.◌∷◌ c p) (String.◌∷◌ d s) = (code c == code d) && starts_with p s

-- A hexadecimal digit: 0 to 9, A to F or a to f.
abbrev pub IsHexDigit : Char → Type 0
IsHexDigit c =
    ((48 ≤ code c) × (code c ≤ 57))
    ⊎ ((65 ≤ code c) × (code c ≤ 70))
    ⊎ ((97 ≤ code c) × (code c ≤ 102))

pub IsHexDigit-code : (c : Char) → IsHexDigit c → is_hex_code (code c) ≡ true
IsHexDigit-code c h = ground (arith, h)

-- So many hexadecimal digits, and nothing else.
unfoldable pub IsHexRun : ℕ → String → Type 0
IsHexRun zero String.[] = Unit
IsHexRun zero (String.◌∷◌ c s) = ⊥
IsHexRun (suc n) String.[] = ⊥
IsHexRun (suc n) (String.◌∷◌ c s) = IsHexDigit c × IsHexRun n s

IsHexRun-hex_run : (n : ℕ) (s : String) → IsHexRun n s → hex_run n s ≡ true
unfolding IsHexRun hex_run
IsHexRun-hex_run zero String.[] h = refl
IsHexRun-hex_run zero (String.◌∷◌ c s) h = absurd h
IsHexRun-hex_run (suc n) String.[] h = absurd h
IsHexRun-hex_run (suc n) (String.◌∷◌ c s) (d, h) = rw (IsHexDigit-code c d) (IsHexRun-hex_run n s h)

-- A text that shows neither the start of a URL nor a private key, 0x and 64 hexadecimal digits.
pub record IsHarmless (s : String) : Type 0 where
  pub no_http : starts_with "http://" (to_lower s) ≡ false
  pub no_https : starts_with "https://" (to_lower s) ≡ false
  pub no_key : (digits : String) → IsHexRun 64 digits → s ≢ String.◌∷◌ "0" (String.◌∷◌ "x" digits)

starts_with-match_lit : (p s : String) → match_lit p s (λ _. true) ≡ starts_with p s
unfolding starts_with match_lit
starts_with-match_lit String.[] s = refl
starts_with-match_lit (String.◌∷◌ c p) String.[] = refl
starts_with-match_lit (String.◌∷◌ c p) (String.◌∷◌ d s) =
    ap (λ b. (code c == code d) && b) (starts_with-match_lit p s)

private_hex-key :
    (digits : String)
    → IsHexRun 64 digits
    → private_hex (String.◌∷◌ "0" (String.◌∷◌ "x" digits)) ≡ true
unfolding private_hex
private_hex-key digits h = IsHexRun-hex_run 64 digits h

or_false : (a b : Bool) → (a || b) ≡ false → (a ≡ false) × (b ≡ false)
or_false true b h = cc h
or_false false b h = (refl, h)

url_free :
    (s : String)
    → test s url_secret_re ≡ false
    → (starts_with "http://" (to_lower s) ≡ false) × (starts_with "https://" (to_lower s) ≡ false)
unfolding test match
url_free s h =
    let (a, b) =
      or_false (match_lit "http://" (to_lower s) (λ _. true))
        (match_lit "https://" (to_lower s) (λ _. true)) h in
    (
      sym (starts_with-match_lit "http://" (to_lower s)) ∙ a,
      sym (starts_with-match_lit "https://" (to_lower s)) ∙ b,
    )

not_secret-IsHarmless : (s : String) → is_secret_text s ≡ false → IsHarmless s
unfolding is_secret_text
not_secret-IsHarmless s h =
    let (url, key) = or_false (test s url_secret_re) (private_hex s) h in
    let (a, b) = url_free s url in
    record {
      no_http = a;
      no_https = b;
      no_key = λ digits run e. cc (sym key ∙ ap private_hex e ∙ private_hex-key digits run);
    }

-- Under a secret key stands only the mark, and every text is harmless.
unfoldable mutual
  pub Hides : Value → Type 0
  Hides (str s) = IsHarmless s
  Hides (arr xs) = HidesItems xs
  Hides (obj fs) = HidesFields fs
  Hides _ = Unit

  pub HidesItems : Items → Type 0
  HidesItems nil = Unit
  HidesItems (cons v vs) = Hides v × HidesItems vs

  pub HidesFields : Fields → Type 0
  HidesFields end = Unit
  HidesFields (field k v fs) =
      ((is_secret_key k ≡ true → v ≡ str "[redacted]") × Hides v) × HidesFields fs

mark-Hides : Hides (str "[redacted]")
unfolding Hides is_secret_text
mark-Hides = not_secret-IsHarmless "[redacted]" refl

if-Hides : (b : Bool) (v : Value) → Hides v → Hides (if b then str "[redacted]" else v)
if-Hides true v h = mark-Hides
if-Hides false v h = h

text-Hides :
    (b : Bool) (s : String) → Hides (if b || is_secret_text s then str "[redacted]" else str s)
unfolding Hides
text-Hides true s = mark-Hides
text-Hides false s = elim (Bool-cases (is_secret_text s)) [
  | inl secret ↦ simp secret mark-Hides
  | inr plain ↦ simp plain (not_secret-IsHarmless s plain)
]

field_hidden :
    (b : Bool) (v : Value) → b ≡ true → (if b then str "[redacted]" else v) ≡ str "[redacted]"
field_hidden true v e = refl
field_hidden false v e = cc e

mutual
  unfolding redact_value Hides

  value-Hides : (depth : ℕ) (v : Value) → Hides (redact_value depth v)
  value-Hides depth (str s) = text-Hides (ltb 8 depth) s
  value-Hides depth (arr xs) =
      if-Hides (ltb 8 depth) (arr (redact_items (suc depth) xs)) (items-Hides (suc depth) xs)
  value-Hides depth (obj fs) =
      if-Hides (ltb 8 depth) (obj (redact_fields (suc depth) fs)) (fields-Hides (suc depth) fs)
  value-Hides depth undefined = if-Hides (ltb 8 depth) undefined tt
  value-Hides depth null = if-Hides (ltb 8 depth) null tt
  value-Hides depth (bool b) = if-Hides (ltb 8 depth) (bool b) tt
  value-Hides depth (num n) = if-Hides (ltb 8 depth) (num n) tt
  value-Hides depth (other_num n) = if-Hides (ltb 8 depth) (other_num n) tt

  items-Hides : (depth : ℕ) (vs : Items) → HidesItems (redact_items depth vs)
  items-Hides depth nil = tt
  items-Hides depth (cons v vs) = (value-Hides depth v, items-Hides depth vs)

  fields-Hides : (depth : ℕ) (fs : Fields) → HidesFields (redact_fields depth fs)
  fields-Hides depth end = tt
  fields-Hides depth (field k v fs) = (
    (
      field_hidden (is_secret_key k) (redact_value depth v),
      if-Hides (is_secret_key k) (redact_value depth v) (value-Hides depth v),
    ),
    fields-Hides depth fs,
  )

-- The metadata of an audit record has only keys that the action allows.
pub redact_audit_metadata-allowed :
    (action key : String) (fs : Fields)
    → In key (keys (redact_audit_metadata action fs))
    → is_allowed action key ≡ true
unfolding redact_audit_metadata keys
redact_audit_metadata-allowed action key end i = absurd i
redact_audit_metadata-allowed action key (field k v fs) i =
    elim (Bool-cases (is_allowed action k)) [
      | inl yes_key ↦ elim (simp yes_key at i) [
        | inl same ↦ rw same yes_key
        | inr later ↦ redact_audit_metadata-allowed action key fs later
      ]
      | inr no_key ↦ redact_audit_metadata-allowed action key fs (simp no_key at i)
    ]

-- How deep arrays and objects nest.
unfoldable mutual
  pub nesting : Value → ℕ
  nesting (arr xs) = suc (nesting_items xs)
  nesting (obj fs) = suc (nesting_fields fs)
  nesting _ = 0

  pub nesting_items : Items → ℕ
  nesting_items nil = 0
  nesting_items (cons v vs) = max (nesting v) (nesting_items vs)

  pub nesting_fields : Fields → ℕ
  nesting_fields end = 0
  nesting_fields (field k v fs) = max (nesting v) (nesting_fields fs)

shorter : (b : Bool) (v : Value) → nesting (if b then str "[redacted]" else v) ≤ nesting v
unfolding nesting
shorter true v = omega arith
shorter false v = omega arith

not_deep : (depth : ℕ) → ltb 8 depth ≡ false → depth ≤ 8
not_deep depth h = ground (arith, h)

if_nesting :
    (b : Bool) (depth : ℕ) (v : Value)
    → depth ≤ 9
    → (b ≡ false → depth + nesting v ≤ 9)
    → depth + nesting (if b then str "[redacted]" else v) ≤ 9
unfolding nesting
if_nesting true depth v small h = omega arith
if_nesting false depth v small h = h refl

mutual
  unfolding redact_value nesting

  value_nesting : (depth : ℕ) (v : Value) → depth ≤ 9 → depth + nesting (redact_value depth v) ≤ 9
  value_nesting depth (str s) small =
      if_nesting (ltb 8 depth || is_secret_text s) depth (str s) small (λ h. omega arith)
  value_nesting depth (arr xs) small =
      if_nesting (ltb 8 depth) depth (arr (redact_items (suc depth) xs)) small (λ h.
        let near = not_deep depth h in
        omega (arith, near, items_nesting (suc depth) xs (omega (arith, near))))
  value_nesting depth (obj fs) small =
      if_nesting (ltb 8 depth) depth (obj (redact_fields (suc depth) fs)) small (λ h.
        let near = not_deep depth h in
        omega (arith, near, fields_nesting (suc depth) fs (omega (arith, near))))
  value_nesting depth undefined small =
      if_nesting (ltb 8 depth) depth undefined small (λ h. omega arith)
  value_nesting depth null small = if_nesting (ltb 8 depth) depth null small (λ h. omega arith)
  value_nesting depth (bool b) small =
      if_nesting (ltb 8 depth) depth (bool b) small (λ h. omega arith)
  value_nesting depth (num n) small =
      if_nesting (ltb 8 depth) depth (num n) small (λ h. omega arith)
  value_nesting depth (other_num n) small =
      if_nesting (ltb 8 depth) depth (other_num n) small (λ h. omega arith)

  items_nesting :
      (depth : ℕ) (vs : Items) → depth ≤ 9 → depth + nesting_items (redact_items depth vs) ≤ 9
  items_nesting depth nil small = omega arith
  items_nesting depth (cons v vs) small =
      omega (arith, value_nesting depth v small, items_nesting depth vs small)

  fields_nesting :
      (depth : ℕ) (fs : Fields) → depth ≤ 9 → depth + nesting_fields (redact_fields depth fs) ≤ 9
  fields_nesting depth end small = omega arith
  fields_nesting depth (field k v fs) small = omega (
    arith,
    shorter (is_secret_key k) (redact_value depth v),
    value_nesting depth v small,
    fields_nesting depth fs small,
  )

-- At every depth of a redacted value a key that SECRET_KEY_RE matches has only the mark under it, and no
-- text starts with http:// or https://, in whatever case, or is 0x and 64 hexadecimal digits.
pub redact_value-Hides : (depth : ℕ) (v : Value) → Hides (redact_value depth v)
redact_value-Hides depth v = value-Hides depth v

-- A redacted value nests at most nine deep, less the depth where it stands.
pub redact_value-nesting :
    (depth : ℕ) (v : Value) → depth ≤ 9 → depth + nesting (redact_value depth v) ≤ 9
redact_value-nesting depth v small = value_nesting depth v small
