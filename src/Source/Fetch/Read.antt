-- ===== src/Source/Fetch/Read.antt =====
-- What a snapshot that was read says of the contract's answers.
use monad_hackathon.Js.{Value, arr, get, str, truthy}
use monad_hackathon.Js.Decimals.{canonical_decimal-decimal}
use monad_hackathon.Js.Numbers.{canonical_decimal, is_num, to_number}
use monad_hackathon.Policy.{PolicyFlags, PolicySnapshot}
use monad_hackathon.Prelude.{
  Bool-cases, List, Option, String, [], any, ap, arith, false, inl, inr, map, none, refl, some, sym,
  to_lower, true, ℕ, ◌||◌, ◌∙◌, ◌∷◌, ◌≡◌,
}
use monad_hackathon.Source.Fetch.{
  Answers, CapsAnswer, PolicyTransport, after_chain, after_code, after_reads, as_decimal,
  block_text, caps_object, fetch_policy_snapshot, flags_object, is_empty_code, is_monad_testnet,
  items_of, raw_value, read_answers, source_value,
}
use monad_hackathon.Source.Fetch.Stages.{HasCode, OnTestnet, is_monad_testnet_iff}
use monad_hackathon.Source.Snapshot.{
  RawSnapshot, SnapshotOptions, caps_of, decimal_string, flags_of, item_values, list_of,
  lower_address, lower_hash, lower_sized, sized_hex,
}
use monad_hackathon.Source.Snapshot.Parts.{
  AsBuilt, AsRead, bad_entry-parts, normalize_policy_snapshot-AsRead, read_lists-TextsRead,
}
use monad_hackathon.Source.Snapshot.Valid.{IsValid, normalize_policy_snapshot-IsValid}
use monad_hackathon.Source.Snapshot.Validate.{
  bad_entry, built, cap_at, is_absent, number_or, or_empty,
}

-- The entries of a list of texts that are hexadecimal numbers of a size, in lower case.
lower_texts :
    (n : ℕ) (xs : List String)
    → any is_absent (map (lower_sized n) (item_values (items_of str xs))) ≡ false
    → map or_empty (map (lower_sized n) (item_values (items_of str xs))) ≡ map to_lower xs
unfolding items_of item_values lower_sized
lower_texts n [] h = refl
lower_texts n (x ∷ xs) h = elim (Bool-cases (sized_hex n x)) [
  | inl fits ↦
      rw fits (ap (λ (ys : List String). to_lower x ∷ ys) (lower_texts n xs (rw fits at h)))
  | inr misfit ↦ cc (rw misfit at h)
]

-- A value that was given as the items of a list.
given_texts :
    (n : ℕ) (xs : List String) (vs : List Value) (os : List (Option String))
    → list_of (arr (items_of str xs)) ≡ some vs
    → os ≡ map (lower_sized n) vs
    → any is_absent os ≡ false
    → map or_empty os ≡ map to_lower xs
unfolding list_of
given_texts n xs vs os e f h =
    let same : item_values (items_of str xs) ≡ vs = cc e in
    let every : os ≡ map (lower_sized n) (item_values (items_of str xs)) =
      f ∙ ap (map (lower_sized n)) (sym same) in
    ap (map or_empty) every ∙ lower_texts n xs (rw every at h)

-- The snapshot has the contract's numbers and lists, the lists in lower case.
pub record IsOf (a : Answers) (p : PolicySnapshot) : Type 0 where
  pub version : p.policy_version ≡ a.identity.version
  pub max_native_transfer_wei : p.caps.max_native_transfer_wei ≡ a.caps.max_native_transfer_wei
  pub max_erc20_transfer_atomic :
      p.caps.max_erc20_transfer_atomic ≡ a.caps.max_erc20_transfer_atomic
  pub max_gas_cost_wei : p.caps.max_gas_cost_wei ≡ a.caps.max_gas_cost_wei
  pub max_fee_per_gas_wei : p.caps.max_fee_per_gas_wei ≡ a.caps.max_fee_per_gas_wei
  pub tools : p.allowed_tool_keys ≡ map to_lower a.tools
  pub recipients : p.allowed_recipients ≡ map to_lower a.recipients
  pub tokens : p.allowed_tokens ≡ map to_lower a.tokens
  pub deployed : a.identity.deployment_chain_id ≡ 10143
  pub live : (a.identity.frozen || a.flags.frozen) ≡ false

decimal_string-as_decimal : (n : ℕ) → decimal_string (as_decimal n) ≡ some n
unfolding decimal_string as_decimal canonical_decimal
decimal_string-as_decimal n = canonical_decimal-decimal n

-- The caps of a built snapshot.
built-caps :
    (r : RawSnapshot) (c : CapsAnswer)
    → r.caps
      ≡ some c.max_native_transfer_wei
        ∷ some c.max_erc20_transfer_atomic
        ∷ some c.max_gas_cost_wei
        ∷ some c.max_fee_per_gas_wei
        ∷ []
    → ((built r).caps.max_native_transfer_wei ≡ c.max_native_transfer_wei)
      × ((built r).caps.max_erc20_transfer_atomic ≡ c.max_erc20_transfer_atomic)
      × ((built r).caps.max_gas_cost_wei ≡ c.max_gas_cost_wei)
      × ((built r).caps.max_fee_per_gas_wei ≡ c.max_fee_per_gas_wei)
unfolding built cap_at
built-caps r c e = (ap (cap_at 0) e, ap (cap_at 1) e, ap (cap_at 2) e, ap (cap_at 3) e)

caps_of-caps_object :
    (c : CapsAnswer)
    → caps_of (caps_object c)
      ≡ some c.max_native_transfer_wei
        ∷ some c.max_erc20_transfer_atomic
        ∷ some c.max_gas_cost_wei
        ∷ some c.max_fee_per_gas_wei
        ∷ []
unfolding caps_of caps_object get
caps_of-caps_object c =
    let e = decimal_string-as_decimal c.max_native_transfer_wei in
    let f = decimal_string-as_decimal c.max_erc20_transfer_atomic in
    let g = decimal_string-as_decimal c.max_gas_cost_wei in
    let h = decimal_string-as_decimal c.max_fee_per_gas_wei in λ i. e i ∷ f i ∷ g i ∷ h i ∷ []

module _ (number_of_text : String → Value) (address block : String) (a : Answers) where
  version_read :
      (r : RawSnapshot)
      → AsRead number_of_text (raw_value address block a) r
      → number_or r.policy_version ≡ a.identity.version
  unfolding raw_value get
  version_read r s = ap number_or (s.policy_version ∙ decimal_string-as_decimal a.identity.version)

  caps_read :
      (r : RawSnapshot)
      → AsRead number_of_text (raw_value address block a) r
      → r.caps ≡ caps_of (caps_object a.caps)
  unfolding raw_value get
  caps_read r s = s.caps

  flags_read :
      (r : RawSnapshot)
      → AsRead number_of_text (raw_value address block a) r
      → r.flags.frozen ≡ (a.identity.frozen || a.flags.frozen)
  unfolding raw_value get flags_of truthy flags_object
  flags_read r s = ap (λ (f : PolicyFlags). f.frozen) s.flags

  deployed_read :
      (r : RawSnapshot)
      → AsRead number_of_text (raw_value address block a) r
      → is_num 10143 r.deployment_chain_id ≡ true
      → a.identity.deployment_chain_id ≡ 10143
  unfolding raw_value get to_number source_value is_num
  deployed_read r s h = ground (arith, s.deployment_chain_id, h)

  texts_read :
      (r : RawSnapshot)
      → AsRead number_of_text (raw_value address block a) r
      → bad_entry r.lists ≡ false
      → (map or_empty r.lists.tool_keys ≡ map to_lower a.tools)
        × (map or_empty r.lists.recipients ≡ map to_lower a.recipients)
        × (map or_empty r.lists.tokens ≡ map to_lower a.tokens)
  unfolding raw_value get lower_address lower_hash
  texts_read r s h =
      let t = read_lists-TextsRead (raw_value address block a) r.lists s.lists in
      let (x, y, z) = bad_entry-parts r.lists h in
      (
        given_texts 64 a.tools t.tools r.lists.tool_keys t.tools_given t.tools_read x,
        given_texts 40 a.recipients t.recipients r.lists.recipients t.recipients_given
            t.recipients_read y,
        given_texts 40 a.tokens t.tokens r.lists.tokens t.tokens_given t.tokens_read z,
      )

-- The fields of a built snapshot that are compared with the answers.
built-parts :
    (r : RawSnapshot)
    → ((built r).policy_version ≡ number_or r.policy_version)
      × ((built r).allowed_tool_keys ≡ map or_empty r.lists.tool_keys)
      × ((built r).allowed_recipients ≡ map or_empty r.lists.recipients)
      × ((built r).allowed_tokens ≡ map or_empty r.lists.tokens)
unfolding built
built-parts r = (refl, refl, refl, refl)

module _ (number_of_text : String → Value) (address block : String) (a : Answers) where
  built-IsOf :
      (r : RawSnapshot) (p : PolicySnapshot)
      → AsRead number_of_text (raw_value address block a) r
      → AsBuilt r p
      → IsOf a p
  built-IsOf r p s b =
      let (w, x, y, z) = built-parts r in
      let (c, d, e, f) =
        built-caps r a.caps
          (caps_read number_of_text address block a r s ∙ caps_of-caps_object a.caps) in
      let (k, l, m) = texts_read number_of_text address block a r s b.entries in
      let back = sym b.same in
      record {
        version =
            ap (λ (q : PolicySnapshot). q.policy_version) back
            ∙ w
            ∙ version_read number_of_text address block a r s;
        max_native_transfer_wei =
            ap (λ (q : PolicySnapshot). q.caps.max_native_transfer_wei) back ∙ c;
        max_erc20_transfer_atomic =
            ap (λ (q : PolicySnapshot). q.caps.max_erc20_transfer_atomic) back ∙ d;
        max_gas_cost_wei = ap (λ (q : PolicySnapshot). q.caps.max_gas_cost_wei) back ∙ e;
        max_fee_per_gas_wei = ap (λ (q : PolicySnapshot). q.caps.max_fee_per_gas_wei) back ∙ f;
        tools = ap (λ (q : PolicySnapshot). q.allowed_tool_keys) back ∙ x ∙ k;
        recipients = ap (λ (q : PolicySnapshot). q.allowed_recipients) back ∙ y ∙ l;
        tokens = ap (λ (q : PolicySnapshot). q.allowed_tokens) back ∙ z ∙ m;
        deployed = deployed_read number_of_text address block a r s b.deployment;
        live = sym (flags_read number_of_text address block a r s) ∙ b.live;
      }

-- A chain of reads that has ended in a snapshot.
pub record IsRead (options : SnapshotOptions) (t : PolicyTransport) (p : PolicySnapshot)
    : Type 0 where
  pub on_testnet : OnTestnet t
  pub has_code : HasCode t
  pub answers : Answers
  pub read : read_answers t ≡ some answers
  pub of_answers : IsOf answers p
  pub valid : IsValid options p

module _ (number_of_text : String → Value) (address : String) (options : SnapshotOptions)
    (t : PolicyTransport) (p : PolicySnapshot) where
  after_reads-IsRead :
      (block : String) (o : Option Answers)
      → read_answers t ≡ o
      → OnTestnet t
      → HasCode t
      → after_reads number_of_text address options block o ≡ inl p
      → IsRead options t p
  unfolding after_reads
  after_reads-IsRead block none e on code h = cc h
  after_reads-IsRead block (some a) e on code h =
      let (r, s, b) =
        normalize_policy_snapshot-AsRead number_of_text options (raw_value address block a) p h in
      record {
        on_testnet = on;
        has_code = code;
        answers = a;
        read = e;
        of_answers = built-IsOf number_of_text address block a r p s b;
        valid =
            normalize_policy_snapshot-IsValid number_of_text (raw_value address block a) options p
              h;
      }

  after_code-IsRead :
      (o : Option Value)
      → t.code ≡ o
      → OnTestnet t
      → after_code number_of_text address options t o ≡ inl p
      → IsRead options t p
  unfolding after_code
  after_code-IsRead none e on h = cc h
  after_code-IsRead (some code) e on h = elim (Bool-cases (is_empty_code code)) [
    | inl empty ↦ cc (rw empty at h)
    | inr full ↦
        after_reads-IsRead (block_text t.block_number) (read_answers t) refl on (code, e, full)
          (rw full at h)
  ]

  after_chain-IsRead :
      (o : Option Value)
      → t.chain_id ≡ o
      → after_chain number_of_text address options t o ≡ inl p
      → IsRead options t p
  unfolding after_chain
  after_chain-IsRead none e h = cc h
  after_chain-IsRead (some chain) e h = elim (Bool-cases (is_monad_testnet chain)) [
    | inl on ↦
        after_code-IsRead t.code refl (chain, e, (is_monad_testnet_iff chain).0 on) (rw on at h)
    | inr off ↦ cc (rw off at h)
  ]

  -- A snapshot that was read is the contract's: the RPC is on Monad Testnet, the contract has code and
  -- was deployed there and is not frozen, every read was answered, the snapshot is valid, its version
  -- and its caps are the numbers that the contract answered, which go through decimal texts, and its
  -- tools, recipients and tokens are the contract's lists in lower case.
  pub fetch_policy_snapshot-IsRead :
      fetch_policy_snapshot number_of_text address options t ≡ inl p → IsRead options t p
  unfolding fetch_policy_snapshot
  fetch_policy_snapshot-IsRead h = after_chain-IsRead t.chain_id refl h
