-- ===== src/Source/Snapshot/Parts.antt =====
-- What the fields of a validated snapshot come from.
use monad_hackathon.Js.{Value, present}
use monad_hackathon.Js.Numbers.{is_num, to_number}
use monad_hackathon.Policy.{PolicySnapshot}
use monad_hackathon.Prelude.{
  Bool, Bool-cases, List, Option, Option-cases, String, any, ap, false, inl, inr, map, none, not,
  refl, some, some_inj, sym, true, ◌&&◌, ◌||◌, ◌∙◌, ◌≡◌,
}
use monad_hackathon.Source.Snapshot.{
  RawLists, RawSnapshot, SnapshotOptions, all_present, caps_of, decimal_string, flags_of, list_of,
  lists_of, lower_address, lower_hash, prop, raw_of, read_lists, ◌>>=◌,
}
use monad_hackathon.Source.Snapshot.Valid.{either_false, first_failure-NoFailure}
use monad_hackathon.Source.Snapshot.Validate.{
  bad_entry, built, failures, is_absent, normalize_policy_snapshot, validate_policy_snapshot,
  validate_raw,
}

-- What a normalization that succeeds has read of its input.
pub record AsRead (number_of_text : String → Value) (input : Value) (r : RawSnapshot) : Type 0 where
  pub lists : read_lists input ≡ some r.lists
  pub policy_version : r.policy_version ≡ decimal_string (prop "policy_version" input)
  pub caps : r.caps ≡ caps_of (prop "caps" input)
  pub flags : r.flags ≡ flags_of (prop "flags" input)
  pub deployment_chain_id :
      r.deployment_chain_id
      ≡ to_number number_of_text (prop "deployment_chain_id" (prop "source" input))

module _ (number_of_text : String → Value) (options : SnapshotOptions) where
  raw_of-AsRead :
      (input : Value) (r : RawSnapshot)
      → raw_of number_of_text input options ≡ some r
      → AsRead number_of_text input r
  unfolding raw_of
  raw_of-AsRead input r h = elim (Bool-cases (present input)) [
    | inr missing ↦ cc (rw missing at h)
    | inl there ↦ elim (Option-cases (read_lists input)) [
      | inl e ↦ cc (rw (e, ◌>>=◌) at (rw there at h))
      | inr (l, e) ↦
          let same = some_inj (rw (e, ◌>>=◌) at (rw there at h)) in
          record {
            lists = e ∙ ap (λ (q : RawSnapshot). some q.lists) same;
            policy_version = ap (λ (q : RawSnapshot). q.policy_version) (sym same);
            caps = ap (λ (q : RawSnapshot). q.caps) (sym same);
            flags = ap (λ (q : RawSnapshot). q.flags) (sym same);
            deployment_chain_id = ap (λ (q : RawSnapshot). q.deployment_chain_id) (sym same);
          }
    ]
  ]

-- What the validation has asked of what it returns.
pub record AsBuilt (r : RawSnapshot) (p : PolicySnapshot) : Type 0 where
  pub same : built r ≡ p
  pub deployment : is_num 10143 r.deployment_chain_id ≡ true
  pub live : r.flags.frozen ≡ false
  pub caps : any is_absent r.caps ≡ false
  pub entries : bad_entry r.lists ≡ false

neither : (a b : Bool) → (not a || not b) ≡ false → b ≡ true
neither true true h = refl
neither true false h = cc h
neither false b h = cc h

validate-AsBuilt :
    (r : RawSnapshot) (options : SnapshotOptions) (p : PolicySnapshot)
    → validate_policy_snapshot r options ≡ inl p
    → AsBuilt r p
unfolding validate_policy_snapshot failures
validate-AsBuilt r options p h =
    let (clean, same) = first_failure-NoFailure (failures r options) (built r) p h in
    let (chains, (_, (_, (_, (frozen, (_, (caps, (_, (entries, _))))))))) = clean in
    record {
      same = same;
      deployment = neither (is_num 10143 r.chain_id) (is_num 10143 r.deployment_chain_id) chains;
      live = frozen;
      caps = caps;
      entries = entries;
    }

-- A snapshot that is returned comes from a reading of the input.
pub normalize_policy_snapshot-AsRead :
    (number_of_text : String → Value) (options : SnapshotOptions) (input : Value)
    (p : PolicySnapshot)
    → normalize_policy_snapshot number_of_text input options ≡ inl p
    → (r : RawSnapshot) × AsRead number_of_text input r × AsBuilt r p
unfolding normalize_policy_snapshot validate_raw
normalize_policy_snapshot-AsRead number_of_text options input p h =
    elim (Option-cases (raw_of number_of_text input options)) [
      | inl e ↦ cc (rw e at h)
      | inr (r, e) ↦ (
        r,
        raw_of-AsRead number_of_text options input r e,
        validate-AsBuilt r options p (rw e at h),
      )
    ]

bind-some :
    {A B : Type 0} (o : Option A) (f : A → Option B) (b : B)
    → (o >>= f) ≡ some b
    → (a : A) × (o ≡ some a) × (f a ≡ some b)
bind-some none f b h = cc h
bind-some (some a) f b h = (a, refl, h)

-- The entries of the lists that are texts.
pub record TextsRead (input : Value) (l : RawLists) : Type 0 where
  pub tools : List Value
  pub recipients : List Value
  pub tokens : List Value
  pub tools_given : list_of (prop "allowed_tool_keys" input) ≡ some tools
  pub recipients_given : list_of (prop "allowed_recipients" input) ≡ some recipients
  pub tokens_given : list_of (prop "allowed_tokens" input) ≡ some tokens
  pub tools_read : l.tool_keys ≡ map lower_hash tools
  pub recipients_read : l.recipients ≡ map lower_address recipients
  pub tokens_read : l.tokens ≡ map lower_address tokens

lists_of-parts :
    (a b c d e : List Value) (l : RawLists)
    → lists_of a b c d e ≡ some l
    → (l.tool_keys ≡ map lower_hash a)
      × (l.recipients ≡ map lower_address b)
      × (l.tokens ≡ map lower_address c)
unfolding lists_of
lists_of-parts a b c d e l h = elim (Bool-cases (all_present d && all_present e)) [
  | inr missing ↦ cc (rw missing at h)
  | inl there ↦
      let same = some_inj (rw there at h) in
      (
        ap (λ (q : RawLists). q.tool_keys) (sym same),
        ap (λ (q : RawLists). q.recipients) (sym same),
        ap (λ (q : RawLists). q.tokens) (sym same),
      )
]

pub read_lists-TextsRead :
    (input : Value) (l : RawLists) → read_lists input ≡ some l → TextsRead input l
unfolding read_lists
read_lists-TextsRead input l h =
    let (a, e, h1) = bind-some (list_of (prop "allowed_tool_keys" input)) _ l h in
    let (b, f, h2) = bind-some (list_of (prop "allowed_recipients" input)) _ l h1 in
    let (c, g, h3) = bind-some (list_of (prop "allowed_tokens" input)) _ l h2 in
    let (d, k, h4) = bind-some (list_of (prop "allowed_spenders" input)) _ l h3 in
    let (r, m, h5) = bind-some (list_of (prop "typed_data_rules" input)) _ l h4 in
    let (x, y, z) = lists_of-parts a b c d r l h5 in
    record {
      tools = a;
      recipients = b;
      tokens = c;
      tools_given = e;
      recipients_given = f;
      tokens_given = g;
      tools_read = x;
      recipients_read = y;
      tokens_read = z;
    }

-- The entries of the lists that are null count as bad.
pub bad_entry-parts :
    (l : RawLists)
    → bad_entry l ≡ false
    → (any is_absent l.tool_keys ≡ false)
      × (any is_absent l.recipients ≡ false)
      × (any is_absent l.tokens ≡ false)
unfolding bad_entry
bad_entry-parts l h =
    let (a, b) = either_false (any is_absent l.tool_keys) _ h in
    let (c, d) = either_false (any is_absent l.recipients) _ b in (a, c, d)
