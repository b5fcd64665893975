-- ===== src/Source/Fetch/Stages.antt =====
-- Which stage of a read fails with which code.
use monad_hackathon.Codes.{
  Code, policy_abi_decode_failed, policy_contract_stale_or_dead, policy_rpc_chain_mismatch,
  policy_rpc_read_failed, policy_schema_invalid,
}
use monad_hackathon.Js.{Value, to_text}
use monad_hackathon.Js.BigInt.{negsuc, parse_int_16, pos, ℤ}
use monad_hackathon.Policy.{PolicySnapshot}
use monad_hackathon.Prelude.{
  Bool, Bool-cases, List, Option, String, [], ap, arith, false, inl, inr, none, not, refl, some,
  sym, true, ◌&&◌, ◌==◌, ◌↔◌, ◌∙◌, ◌∷◌, ◌≡◌,
}
use monad_hackathon.Source.Fetch.{
  Answers, PolicyTransport, after_chain, after_code, after_reads, block_text, fetch_policy_snapshot,
  is_empty_code, is_monad_testnet, raw_value, read_answers,
}
use monad_hackathon.Source.Snapshot.{RawSnapshot, SnapshotOptions, raw_of}
use monad_hackathon.Source.Snapshot.Validate.{
  Checked, built, failures, first_failure, normalize_policy_snapshot, validate_policy_snapshot,
  validate_raw,
}

-- The codes that a read has before its snapshot is validated, but for that of a wrong chain, which the
-- validation also has.
unfoldable pub is_read_code : Code → Bool
is_read_code policy_rpc_read_failed = true
is_read_code policy_contract_stale_or_dead = true
is_read_code policy_abi_decode_failed = true
is_read_code _ = false

others : List (Bool × Code) → Bool
unfolding is_read_code
others [] = true
others ((b, c) ∷ tests) = not (is_read_code c) && others tests

first_failure-others :
    (tests : List (Bool × Code)) (q : PolicySnapshot) (c : Code)
    → others tests ≡ true
    → first_failure tests (inl q) ≡ inr c
    → is_read_code c ≡ false
unfolding others first_failure
first_failure-others [] q c h e = cc e
first_failure-others ((true, d) ∷ tests) q c h e = ground (arith, h, e)
first_failure-others ((false, d) ∷ tests) q c h e =
    first_failure-others tests q c (ground (arith, h)) e

failures-others : (r : RawSnapshot) (options : SnapshotOptions) → others (failures r options) ≡ true
unfolding failures others is_read_code
failures-others r options = refl

invalid_other : is_read_code policy_schema_invalid ≡ false
unfolding is_read_code
invalid_other = refl

validate_raw-others :
    (o : Option RawSnapshot) (options : SnapshotOptions) (c : Code)
    → validate_raw o options ≡ inr c
    → is_read_code c ≡ false
unfolding validate_raw validate_policy_snapshot
validate_raw-others none options c h =
    let e : policy_schema_invalid ≡ c = cc h in rw (sym e) invalid_other
validate_raw-others (some r) options c h =
    first_failure-others (failures r options) (built r) c (failures-others r options) h

mismatch_other :
    (c : Code)
    → is_read_code c ≡ true
    → ◌≡◌ {A = Checked} (inr policy_rpc_chain_mismatch) (inr c)
    → ⊥
unfolding is_read_code
mismatch_other c reading h =
    let e : policy_rpc_chain_mismatch ≡ c = cc h in cc (ap is_read_code e ∙ reading)

-- The RPC answers that it is Monad Testnet.
abbrev pub OnTestnet : PolicyTransport → Type 0
OnTestnet t =
    (chain : Value) × (t.chain_id ≡ some chain) × (parse_int_16 (to_text chain) ≡ some (pos 10143))

pub is_monad_testnet_iff :
    (v : Value) → (is_monad_testnet v ≡ true) ↔ (parse_int_16 (to_text v) ≡ some (pos 10143))
unfolding is_monad_testnet
is_monad_testnet_iff v = go (parse_int_16 (to_text v))
  where
    go :
        (o : Option ℤ)
        → ((elim o [ some (pos n) ↦ n == 10143 | _ ↦ false ]) ≡ true) ↔ (o ≡ some (pos 10143))
    go none = (λ h. cc h, λ h. cc h)
    go (some (negsuc n)) = (λ h. cc h, λ h. cc h)
    go (some (pos n)) = (
      λ h. let same : n ≡ 10143 = ground (arith, h) in ap (λ m. some (pos m)) same,
      λ h. let same : n ≡ 10143 = cc h in rw same refl,
    )

-- There is code at the policy's address.
abbrev pub HasCode : PolicyTransport → Type 0
HasCode t = (code : Value) × (t.code ≡ some code) × (is_empty_code code ≡ false)

-- The first stage of a read that fails, and its code.
pub data Stage (t : PolicyTransport) (c : Code) : Type 0 where
  chain_unread : t.chain_id ≡ none → c ≡ policy_rpc_read_failed → Stage t c
  code_unread : OnTestnet t → t.code ≡ none → c ≡ policy_rpc_read_failed → Stage t c
  no_code :
      OnTestnet t
      → (code : Value) → t.code ≡ some code
      → is_empty_code code ≡ true
      → c ≡ policy_contract_stale_or_dead
      → Stage t c
  undecoded :
      OnTestnet t → HasCode t → read_answers t ≡ none → c ≡ policy_abi_decode_failed → Stage t c

module _ (number_of_text : String → Value) (address : String) (options : SnapshotOptions)
    (t : PolicyTransport) (c : Code) (reading : is_read_code c ≡ true) where
  after_reads-stage :
      (block : String) (o : Option Answers)
      → after_reads number_of_text address options block o ≡ inr c
      → (o ≡ none) × (c ≡ policy_abi_decode_failed)
  unfolding after_reads normalize_policy_snapshot
  after_reads-stage block none h = (refl, cc h)
  after_reads-stage block (some a) h =
      let other =
        validate_raw-others (raw_of number_of_text (raw_value address block a) options) options c
          h in
      cc (sym reading ∙ other)

  after_code-Stage :
      (o : Option Value)
      → t.code ≡ o
      → OnTestnet t
      → after_code number_of_text address options t o ≡ inr c
      → Stage t c
  unfolding after_code
  after_code-Stage none e on h = code_unread on e (cc h)
  after_code-Stage (some code) e on h = elim (Bool-cases (is_empty_code code)) [
    | inl empty ↦ no_code on code e empty (cc (rw empty at h))
    | inr full ↦
        let (f, g) = after_reads-stage (block_text t.block_number) _ (rw full at h) in
        undecoded on (code, e, full) f g
  ]

  after_chain-Stage :
      (o : Option Value)
      → t.chain_id ≡ o
      → after_chain number_of_text address options t o ≡ inr c
      → Stage t c
  unfolding after_chain
  after_chain-Stage none e h = chain_unread e (cc h)
  after_chain-Stage (some chain) e h = elim (Bool-cases (is_monad_testnet chain)) [
    | inl on ↦
        after_code-Stage t.code refl (chain, e, (is_monad_testnet_iff chain).0 on) (rw on at h)
    | inr off ↦ absurd (mismatch_other c reading (rw off at h))
  ]

  Stage-fails : Stage t c → fetch_policy_snapshot number_of_text address options t ≡ inr c
  unfolding fetch_policy_snapshot after_chain after_code after_reads
  Stage-fails (chain_unread e f) = rw (e, after_chain) (ap inr (sym f))
  Stage-fails (code_unread (chain, e, on) f g) =
      rw (e, after_chain)
        (rw ((is_monad_testnet_iff chain).1 on) (rw (f, after_code) (ap inr (sym g))))
  Stage-fails (no_code (chain, e, on) code f empty g) =
      rw (e, after_chain)
        (rw ((is_monad_testnet_iff chain).1 on) (rw (f, after_code) (rw empty (ap inr (sym g)))))
  Stage-fails (undecoded (chain, e, on) (code, f, full) g k) =
      rw (e, after_chain)
        (rw ((is_monad_testnet_iff chain).1 on)
          (rw (f, after_code) (rw full (rw (g, after_reads) (ap inr (sym k))))))

  -- Of the codes for an unread answer, a missing contract and an undecoded answer, a read fails with
  -- one exactly when the first of its stages that fails is one of that code.
  pub fetch_policy_snapshot-Stage_iff :
      (fetch_policy_snapshot number_of_text address options t ≡ inr c) ↔ Stage t c
  unfolding fetch_policy_snapshot
  fetch_policy_snapshot-Stage_iff = (λ h. after_chain-Stage t.chain_id refl h, Stage-fails)
