-- ===== src/Source/Snapshot/Valid.antt =====
-- What a validated snapshot is known to be.
use monad_hackathon.Codes.{Code}
use monad_hackathon.Js.{Value}
use monad_hackathon.Policy.{PolicySnapshot}
use monad_hackathon.Prelude.{
  Bool, List, Option, String, [], arith, false, inl, length, ltb, map, none, not, refl, some, sym,
  true, ◌||◌, ◌∷◌, ◌≡◌, ◌≤◌,
}
use monad_hackathon.Source.Snapshot.{RawLists, RawSnapshot, SnapshotOptions, raw_of, unique}
use monad_hackathon.Source.Snapshot.Validate.{
  above, built, duplicated, failures, first_failure, normalize_policy_snapshot, number_or, or_empty,
  over_bound, unsafe_flags, validate_policy_snapshot, validate_raw,
}

-- It is not frozen, its flags are the safe ones, its version is in range, and its lists of tools,
-- recipients and tokens are bounded and have no duplicates.
pub record IsValid (options : SnapshotOptions) (p : PolicySnapshot) : Type 0 where
  pub not_frozen : p.flags.frozen ≡ false
  pub safe_flags : unsafe_flags p.flags ≡ false
  pub old_enough : options.min_policy_version ≤ p.policy_version
  pub new_enough : above options.max_policy_version p.policy_version ≡ false
  pub few_tools : length p.allowed_tool_keys ≤ 64
  pub few_recipients : length p.allowed_recipients ≤ 256
  pub few_tokens : length p.allowed_tokens ≤ 128
  pub distinct_tools : unique p.allowed_tool_keys ≡ true
  pub distinct_recipients : unique p.allowed_recipients ≡ true
  pub distinct_tokens : unique p.allowed_tokens ≡ true

-- No test of the list fails.
abbrev pub NoFailure : List (Bool × Code) → Type 0
NoFailure [] = Unit
NoFailure ((b, c) ∷ tests) = (b ≡ false) × NoFailure tests

pub first_failure-NoFailure :
    (tests : List (Bool × Code)) (q p : PolicySnapshot)
    → first_failure tests (inl q) ≡ inl p
    → NoFailure tests × (q ≡ p)
unfolding first_failure
first_failure-NoFailure [] q p h = (tt, ground (arith, h))
first_failure-NoFailure ((true, c) ∷ tests) q p h = cc h
first_failure-NoFailure ((false, c) ∷ tests) q p h =
    let (rest, same) = first_failure-NoFailure tests q p h in ((refl, rest), same)

pub either_false : (a b : Bool) → (a || b) ≡ false → (a ≡ false) × (b ≡ false)
either_false true b h = cc h
either_false false b h = (refl, h)

length-map : {A B : Type 0} (f : A → B) (xs : List A) → length (map f xs) ≡ length xs
length-map f [] = refl
length-map f (x ∷ xs) = omega (arith, length-map f xs)

three_false :
    (a b c d : Bool) → (a || (b || (c || d))) ≡ false → (a ≡ false) × (b ≡ false) × (c ≡ false)
three_false true b c d h = cc h
three_false false true c d h = cc h
three_false false false true d h = cc h
three_false false false false d h = (refl, refl, refl)

bounds_of :
    (l : RawLists)
    → over_bound l ≡ false
    → (ltb 64 (length l.tool_keys) ≡ false)
      × (ltb 256 (length l.recipients) ≡ false)
      × (ltb 128 (length l.tokens) ≡ false)
unfolding over_bound
bounds_of l h =
    three_false (ltb 64 (length l.tool_keys)) (ltb 256 (length l.recipients))
      (ltb 128 (length l.tokens)) (ltb 256 (length l.spenders) || ltb 64 (length l.rules)) h

none_failing :
    (a b c : Bool) → (not a || (not b || not c)) ≡ false → (a ≡ true) × (b ≡ true) × (c ≡ true)
none_failing true true true h = (refl, refl, refl)
none_failing true true false h = cc h
none_failing true false c h = cc h
none_failing false b c h = cc h

distinct_of :
    (l : RawLists)
    → duplicated l ≡ false
    → (unique (map or_empty l.tool_keys) ≡ true)
      × (unique (map or_empty l.recipients) ≡ true)
      × (unique (map or_empty l.tokens) ≡ true)
unfolding duplicated
distinct_of l h =
    none_failing (unique (map or_empty l.tool_keys)) (unique (map or_empty l.recipients))
      (unique (map or_empty l.tokens)) h

built-IsValid :
    (r : RawSnapshot) (options : SnapshotOptions)
    → r.flags.frozen ≡ false
    → unsafe_flags r.flags ≡ false
    → (ltb (number_or r.policy_version) options.min_policy_version
        || above options.max_policy_version (number_or r.policy_version))
      ≡ false
    → over_bound r.lists ≡ false
    → duplicated r.lists ≡ false
    → IsValid options (built r)
unfolding built
built-IsValid r options frozen flags versions bound distinct =
    let (low_ok, high_ok) =
      either_false (ltb (number_or r.policy_version) options.min_policy_version)
        (above options.max_policy_version (number_or r.policy_version)) versions in
    let l = r.lists in
    let few : (ltb 64 (length l.tool_keys) ≡ false)
        × (ltb 256 (length l.recipients) ≡ false)
        × (ltb 128 (length l.tokens) ≡ false) =
      bounds_of l bound in
    let (x, y, z) = distinct_of l distinct in
    record {
      not_frozen = frozen;
      safe_flags = flags;
      old_enough = ground (arith, low_ok);
      new_enough = high_ok;
      few_tools = ground (arith, few.0, length-map or_empty r.lists.tool_keys);
      few_recipients = ground (arith, few.1, length-map or_empty r.lists.recipients);
      few_tokens = ground (arith, few.2, length-map or_empty r.lists.tokens);
      distinct_tools = x;
      distinct_recipients = y;
      distinct_tokens = z;
    }

validate-IsValid :
    (o : Option RawSnapshot) (options : SnapshotOptions) (p : PolicySnapshot)
    → validate_raw o options ≡ inl p
    → IsValid options p
unfolding validate_raw validate_policy_snapshot failures
validate-IsValid none options p h = cc h
validate-IsValid (some r) options p h =
    let (clean, same) = first_failure-NoFailure (failures r options) (built r) p h in
    let (_, (_, (_, (versions, (frozen, (flags, (_, (bound, (_, (distinct, _)))))))))) = clean in
    rw (sym same) (built-IsValid r options frozen flags versions bound distinct)

-- Every snapshot that the normalization returns is valid, whatever the contract has answered: it is not
-- frozen, has the safe flags and a version in range, and its lists of tools, recipients and tokens are
-- within their bounds and have no duplicate.
pub normalize_policy_snapshot-IsValid :
    (number_of_text : String → Value) (input : Value) (options : SnapshotOptions)
    (p : PolicySnapshot)
    → normalize_policy_snapshot number_of_text input options ≡ inl p
    → IsValid options p
unfolding normalize_policy_snapshot
normalize_policy_snapshot-IsValid number_of_text input options p h =
    validate-IsValid (raw_of number_of_text input options) options p h
