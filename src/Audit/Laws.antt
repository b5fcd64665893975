-- ===== src/Audit/Laws.antt =====
-- What the audit log keeps, and what the host reads of it.
use monad_hackathon.Audit.{
  AuditEvent, AuditInput, AuditLog, Line, append_event, audit_limit, blank,
  build_compass_audit_events, event, event_of, is_blank, is_primitive, malformed,
  metadata_allowlist, non_empty, parsed, redact_keys, redact_metadata, requested_limit, tail,
}
use monad_hackathon.Js.{
  Fields, Value, arr, bool, end, field, get, null, num, obj, other_num, str, undefined,
}
use monad_hackathon.Prelude.{
  Bool, List, Option, String, [], ap, arith, drop, drop-append, eq_iff, false, filter,
  filter-append, if◌then◌else◌, includes, length, length-append, length-drop, none, not, refl, some,
  suc, true, zero, ℕ, ◌&&◌, ◌++◌, ◌+◌, ◌-◌, ◌∙◌, ◌∷◌, ◌≡◌, ◌≤◌,
}

abbrev pub kept_fields : Option Fields → Fields
kept_fields none = end
kept_fields (some fs) = fs

get-redact_keys :
    (k : String) (ks : List String) (m : Fields)
    → get k (redact_keys ks m)
      ≡ (if includes ks k && is_primitive (get k m) then get k m else undefined)
unfolding get redact_keys
get-redact_keys k [] m = refl
get-redact_keys k (j ∷ ks) m = ground (arith, get-redact_keys k ks m, eq_iff j k)

get-non_empty : (k : String) (fs : Fields) → get k (kept_fields (non_empty fs)) ≡ get k fs
unfolding non_empty
get-non_empty k end = refl
get-non_empty k (field j v fs) = refl

-- What the log shows of a value: null, a text, a number or a Boolean, and nothing of any other.
abbrev pub shown_value : Value → Value
shown_value null = null
shown_value (bool b) = bool b
shown_value (num n) = num n
shown_value (other_num s) = other_num s
shown_value (str s) = str s
shown_value undefined = undefined
shown_value (arr xs) = undefined
shown_value (obj fs) = undefined

shown_lem :
    (listed : Bool) (v : Value)
    → (if listed && is_primitive v then v else undefined)
      ≡ (if listed then shown_value v else undefined)
unfolding is_primitive
shown_lem false v = refl
shown_lem true null = refl
shown_lem true (bool b) = refl
shown_lem true (num n) = refl
shown_lem true (other_num s) = refl
shown_lem true (str s) = refl
shown_lem true undefined = refl
shown_lem true (arr xs) = refl
shown_lem true (obj fs) = refl

-- The eight keys of the metadata that the log may hold.
abbrev pub loggable : List String
loggable =
    "exposed_tool_count" ∷ "upstream_tool_count" ∷ "transport" ∷ "chain_label" ∷ "server_name"
    ∷ "server_version" ∷ "duration_ms" ∷ "reason_code" ∷ []

-- Of the metadata, the log keeps a key's value exactly when the key is one of exposed_tool_count,
-- upstream_tool_count, transport, chain_label, server_name, server_version, duration_ms and
-- reason_code, and the value is null, a text, a number or a Boolean; every other key is absent.
pub get-redact_metadata :
    (k : String) (m : Fields)
    → get k (kept_fields (redact_metadata (some m)))
      ≡ (if includes loggable k then shown_value (get k m) else undefined)
unfolding redact_metadata
get-redact_metadata k m =
    get-non_empty k (redact_keys metadata_allowlist m)
    ∙ get-redact_keys k metadata_allowlist m
    ∙ shown_lem (includes metadata_allowlist k) (get k m)

length-parsed : (ls : List Line) → length (parsed ls) ≤ length ls
unfolding parsed
length-parsed [] = omega arith
length-parsed (event e ∷ ls) = omega (arith, length-parsed ls)
length-parsed (blank ∷ ls) = omega (arith, length-parsed ls)
length-parsed (malformed ∷ ls) = omega (arith, length-parsed ls)

parsed-append : (xs ys : List Line) → parsed (xs ++ ys) ≡ parsed xs ++ parsed ys
unfolding parsed
parsed-append [] ys = refl
parsed-append (event e ∷ ls) ys = ap (λ r. e ∷ r) (parsed-append ls ys)
parsed-append (blank ∷ ls) ys = parsed-append ls ys
parsed-append (malformed ∷ ls) ys = parsed-append ls ys

length-tail : (log : AuditLog) (limit : ℕ) → length (tail log limit) ≤ limit
unfolding tail
length-tail log limit =
    let lines = filter (λ l. not (is_blank l)) log.lines in
    omega (
      arith,
      length-parsed (drop (length lines - limit) lines),
      length-drop (length lines - limit) lines,
    )

requested_limit-le :
    (floor_positive : String → Option ℕ) (v : Value) → requested_limit floor_positive v ≤ 500
unfolding requested_limit
requested_limit-le floor_positive (num zero) = omega arith
requested_limit-le floor_positive (num (suc n)) = omega arith
requested_limit-le floor_positive (other_num s) = ground (arith)
requested_limit-le floor_positive _ = omega arith

audit_limit-le :
    (floor_positive : String → Option ℕ) (v : Value) → audit_limit floor_positive v ≤ 500
unfolding audit_limit
audit_limit-le floor_positive (obj fs) = requested_limit-le floor_positive (get "limit" fs)
audit_limit-le floor_positive _ = omega arith

-- Whatever the host asks for, the limit is at most 500, the events that it gets are no more than the
-- limit, and `count` is their number.
pub build_compass_audit_events_bounds :
    (floor_positive : String → Option ℕ) (log : AuditLog) (raw_args : Value)
    → ((build_compass_audit_events floor_positive log raw_args).count
        ≡ length (build_compass_audit_events floor_positive log raw_args).events)
      × ((build_compass_audit_events floor_positive log raw_args).count
          ≤ audit_limit floor_positive raw_args)
      × (audit_limit floor_positive raw_args ≤ 500)
unfolding build_compass_audit_events
build_compass_audit_events_bounds floor_positive log raw_args = (
  refl,
  length-tail log (audit_limit floor_positive raw_args),
  audit_limit-le floor_positive raw_args,
)

-- Dropping all but `n + 1` lines of a list that has grown by one.
drop-grown :
    (ls : List Line) (e : AuditEvent) (n : ℕ)
    → drop (length (ls ++ event e ∷ []) - (n + 1)) (ls ++ event e ∷ [])
      ≡ drop (length ls - n) ls ++ event e ∷ []
drop-grown ls e n =
    ap (λ k. drop k (ls ++ event e ∷ [])) (omega (arith, length-append {0} ls (event e ∷ [])))
    ∙ drop-append (length ls - n) ls (event e ∷ []) (omega arith)

-- Right after an event is recorded, the last `limit + 1` events are the last `limit` ones before it,
-- and then that event.
pub tail-append_event :
    (uuid now_iso : ℕ → String) (log : AuditLog) (input : AuditInput) (limit : ℕ)
    → tail (append_event uuid now_iso log input) (limit + 1)
      ≡ tail log limit ++ event_of uuid now_iso log input ∷ []
unfolding tail append_event
tail-append_event uuid now_iso log input limit =
    let e = event_of uuid now_iso log input in
    let ls = filter (λ l. not (is_blank l)) log.lines in
    ap (λ x. parsed (drop (length x - (limit + 1)) x))
      (filter-append (λ l. not (is_blank l)) log.lines (event e ∷ []))
    ∙ ap parsed (drop-grown ls e limit)
    ∙ parsed-append (drop (length ls - limit) ls) (event e ∷ [])
