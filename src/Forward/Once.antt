-- ===== src/Forward/Once.antt =====
-- How often guarded calls with a key reach the upstream.
use Prim.Native.Char.{Char}
use monad_hackathon.Codes.{ToolClass, contract_write, token_approval, transaction_execute}
use monad_hackathon.Digest.{CandidateDigest}
use monad_hackathon.Forward.{
  Clearance, Gate, Setting, ToolCall, class_of, cleared, derive_idempotency_key, gate_of,
  is_idempotent, resolve_policy, stopped,
}
use monad_hackathon.Forward.Run.{
  Pending, Progress, allow_result, awaits_other, begin_forward, calls_upstream, end_forward, ended,
  finished, forward_key, key_for, launch, launch_keyed, progress_of, settle_key,
}
use monad_hackathon.Idempotency.{
  Entry, IdempotencyStore, Settlement, Steps, begin, begin_with, begins, done, failed, fulfilled,
  new_store, pending, settle, settles, stay, then_step,
}
use monad_hackathon.Idempotency.Once.{begin-settled, count, count-append, started_once}
use monad_hackathon.Js.{Value}
use monad_hackathon.Keccak.{keccak256, keccak256_bytes}
use monad_hackathon.Policy.{PolicySnapshot}
use monad_hackathon.Prelude.{
  Bool-cases, List, Option, String, [], ap, arith, inl, inr, lookup, none, refl, some, some_inj,
  str_eq, sym, true, ◌++◌, ◌+◌, ◌∙◌, ◌∷◌, ◌≡◌, ◌≢◌, ◌≤◌,
}
use monad_hackathon.ToolSemantics.Resolver.{resolve_call_by_name}

cons_filled : (c : Char) (s : String) → String.◌∷◌ c s ≢ ""
cons_filled c s e = cc e

keccak256-filled : (s : String) → keccak256 s ≢ ""
unfolding keccak256 keccak256_bytes
keccak256-filled s = cons_filled "0" _

pub key_for-filled :
    (call : ToolCall) (k : ToolClass) (d : Option CandidateDigest) (key : String)
    → key_for call k d ≡ some key
    → key ≢ ""
unfolding key_for derive_idempotency_key
key_for-filled call k none key e = cc e
key_for-filled call k (some d) key e = elim (Bool-cases (is_idempotent k)) [
  | inl keyed ↦
      let same : derive_idempotency_key call.tool_name d.digest ≡ key =
        ground (arith, simp keyed at e) in
      rw (sym same) (keccak256-filled _)
  | inr other ↦ cc (simp other at e)
]

pub of_key :
    (call : ToolCall) (c : Clearance) (key : String)
    → forward_key call c ≡ some key
    → key_for call c.semantics.tool_class c.digest ≡ some key
unfolding forward_key
of_key call c key e = e

-- The key of a call that changes something and has a digest.
abbrev pub broadcast_key : ToolCall → ToolClass → Option CandidateDigest → Option String
broadcast_key call transaction_execute (some d) =
    some (derive_idempotency_key call.tool_name d.digest)
broadcast_key call token_approval (some d) = some (derive_idempotency_key call.tool_name d.digest)
broadcast_key call contract_write (some d) = some (derive_idempotency_key call.tool_name d.digest)
broadcast_key call _ _ = none

broadcast_key-key_for :
    (call : ToolCall) (k : ToolClass) (d : Option CandidateDigest)
    → broadcast_key call k d ≡ key_for call k d
unfolding key_for
broadcast_key-key_for call k none = ground arith
broadcast_key-key_for call k (some d) = ground arith

-- The calls so far, and one more where it has a key.
abbrev pub logged : Option String → List String → List String
logged none calls = calls
logged (some key) calls = calls ++ key ∷ []

count-logged :
    (key : String) (o : Option String) (calls : List String)
    → count key (logged o calls) ≡ count key calls + count key (logged o [])
count-logged key none calls = omega arith
count-logged key (some k) calls = omega (arith, count-append key k calls)

module _ {R E : Type 0} where
  launch_keyed-Steps :
      (call : ToolCall) (p : Option PolicySnapshot) (c : Clearance) (key : Option String)
      (store : IdempotencyStore R E)
      → Steps store (launch_keyed call p c key store).0
  unfolding launch_keyed
  launch_keyed-Steps call p c none store = stay store
  launch_keyed-Steps call p c (some key) store = then_step (stay store) (begins key store)

  launch-Steps :
      (call : ToolCall) (p : Option PolicySnapshot) (k : Option ToolClass) (gate : Gate)
      (store : IdempotencyStore R E)
      → (after : IdempotencyStore R E) × ((launch call p k gate (some store)).0 ≡ some after)
        × Steps store after
  unfolding launch
  launch-Steps call p k (stopped stop) store = (store, refl, stay store)
  launch-Steps call p k (cleared c) store = (
    (launch_keyed call p c (forward_key call c) store).0,
    refl,
    launch_keyed-Steps call p c (forward_key call c) store,
  )

  -- Whatever a guarded call is and however it ends, what it does to the idempotency store is a sequence
  -- of steps of the store's own calls.
  pub begin_forward-Steps :
      (number_of_text : String → Value) (call : ToolCall) (setting : Setting)
      (store : IdempotencyStore R E)
      → (after : IdempotencyStore R E) × ((begin_forward number_of_text call setting (some store)).0
          ≡ some after)
        × Steps store after
  unfolding begin_forward
  begin_forward-Steps number_of_text call setting store =
      launch-Steps call (resolve_policy setting.source).0
        (class_of (resolve_call_by_name call.tool_name call.input_schema_hash))
        (gate_of number_of_text call setting) store

  -- The key under which a call that has begun calls the upstream, if it does and has a key.
  abbrev pub called_key : ToolCall → Progress R E → Option String
  called_key call (calls_upstream waiting) =
      broadcast_key call waiting.clearance.semantics.tool_class waiting.clearance.digest
  called_key call (awaits_other waiting) = none
  called_key call (ended o) = none

  -- Calls that share a store: each begins, and ends once its promise has settled. The list is the keys
  -- of the calls that have reached the upstream, in order.
  pub data Forwards (number_of_text : String → Value)
      : IdempotencyStore R E → IdempotencyStore R E → List String → Type 0 where
    none_yet : (s : IdempotencyStore R E) → Forwards number_of_text s s []
    then_begin :
        {s t : IdempotencyStore R E} {calls : List String} (call : ToolCall) (setting : Setting)
        (u : IdempotencyStore R E)
        → Forwards number_of_text s t calls
        → (begin_forward number_of_text call setting (some t)).0 ≡ some u
        → Forwards number_of_text s u
            (logged (called_key call (begin_forward number_of_text call setting (some t)).1) calls)
    then_end :
        {s t : IdempotencyStore R E} {calls : List String} (call : ToolCall) (setting : Setting)
        (waiting : Pending) (key : String) (outcome : Settlement R E) (u : IdempotencyStore R E)
        → Forwards number_of_text s t calls
        → waiting.idempotency_key ≡ some key
        → lookup key t.entries ≡ some pending
        → (end_forward call setting (calls_upstream waiting) outcome (some t)).0 ≡ some u
        → Forwards number_of_text s u calls

  -- A call to the upstream under a key starts its side effect in the store.
  abbrev IsStarted : Option String → IdempotencyStore R E → IdempotencyStore R E → Type 0
  IsStarted o s t =
      (key : String) → count key (logged o []) + count key s.started ≤ count key t.started

  begin_with-IsStarted :
      (call : ToolCall) (p : Option PolicySnapshot) (c : Clearance) (key : String)
      (s : IdempotencyStore R E) (o : Option (Entry R E))
      → broadcast_key call c.semantics.tool_class c.digest ≡ some key
      → IsStarted
          (called_key call (progress_of call p c key (begin_with key s o).1))
          s
          (begin_with key s o).0
  unfolding begin_with progress_of
  begin_with-IsStarted call p c key s (some pending) e k = omega arith
  begin_with-IsStarted call p c key s (some (done result)) e k = omega arith
  begin_with-IsStarted call p c key s (some (failed error)) e k = omega arith
  begin_with-IsStarted call p c key s none e k = rw e (omega (arith, count-append k key s.started))

  begin-IsStarted :
      (call : ToolCall) (p : Option PolicySnapshot) (c : Clearance) (key : String)
      (s : IdempotencyStore R E)
      → broadcast_key call c.semantics.tool_class c.digest ≡ some key
      → IsStarted (called_key call (progress_of call p c key (begin key s).1)) s (begin key s).0
  unfolding begin progress_of
  begin-IsStarted call p c key s e = elim (Bool-cases (str_eq key "")) [
    | inl bare ↦ rw bare (λ k. omega arith)
    | inr filled ↦ rw filled (begin_with-IsStarted call p c key s (lookup key s.entries) e)
  ]

  launch_keyed-IsStarted :
      (call : ToolCall) (p : Option PolicySnapshot) (c : Clearance) (o : Option String)
      (s : IdempotencyStore R E)
      → broadcast_key call c.semantics.tool_class c.digest ≡ o
      → IsStarted (called_key call (launch_keyed call p c o s).1) s (launch_keyed call p c o s).0
  unfolding launch_keyed
  launch_keyed-IsStarted call p c none s e = λ k. rw e (omega arith)
  launch_keyed-IsStarted call p c (some key) s e = begin-IsStarted call p c key s e

  launch-IsStarted :
      (call : ToolCall) (p : Option PolicySnapshot) (k : Option ToolClass) (gate : Gate)
      (s t : IdempotencyStore R E)
      → (launch call p k gate (some s)).0 ≡ some t
      → IsStarted (called_key call (launch call p k gate (some s)).1) s t
  unfolding launch forward_key
  launch-IsStarted call p k (stopped stop) s t e =
      let same : s ≡ t = some_inj e in rw same (λ key. omega arith)
  launch-IsStarted call p k (cleared c) s t e =
      let same : (launch_keyed call p c (forward_key call c) s).0 ≡ t = some_inj e in
      rw (sym same) (
        launch_keyed-IsStarted call p c (forward_key call c) s
          (broadcast_key-key_for call c.semantics.tool_class c.digest))

  settle_key-settle :
      (o : Option String) (key : String) (outcome : Settlement R E) (t : IdempotencyStore R E)
      → o ≡ some key
      → settle_key o outcome (some t) ≡ some (settle key outcome t)
  unfolding settle_key
  settle_key-settle none key outcome t k = cc k
  settle_key-settle (some j) key outcome t k =
      let same : j ≡ key = ground (arith, k) in ap (λ i. some (settle i outcome t)) same

  ended-started :
      (call : ToolCall) (setting : Setting) (waiting : Pending) (key : String)
      (outcome : Settlement R E) (t u : IdempotencyStore R E)
      → waiting.idempotency_key ≡ some key
      → (end_forward call setting (calls_upstream waiting) outcome (some t)).0 ≡ some u
      → settle key outcome t ≡ u
  unfolding end_forward
  ended-started call setting waiting key outcome t u k f =
      some_inj (sym (settle_key-settle waiting.idempotency_key key outcome t k) ∙ f)

  began-Steps :
      (number_of_text : String → Value) (call : ToolCall) (setting : Setting)
      (t u : IdempotencyStore R E)
      → (begin_forward number_of_text call setting (some t)).0 ≡ some u
      → Steps t u
  began-Steps number_of_text call setting t u e =
      let (after, f, steps) = begin_forward-Steps number_of_text call setting t in
      let same : after ≡ u = some_inj (sym f ∙ e) in rw (sym same) steps

  Steps-append : {s t u : IdempotencyStore R E} → Steps s t → Steps t u → Steps s u
  Steps-append first (stay t) = first
  Steps-append first (then_step rest step) = then_step (Steps-append first rest) step

  Forwards-Steps :
      {number_of_text : String → Value} {s t : IdempotencyStore R E} {calls : List String}
      → Forwards number_of_text s t calls
      → Steps s t
  Forwards-Steps (none_yet s) = stay s
  Forwards-Steps (then_begin {s} {t} call setting u before e) =
      Steps-append (Forwards-Steps before) (began-Steps _ call setting t u e)
  Forwards-Steps (then_end {s} {t} call setting waiting key outcome u before k e f) =
      then_step (Forwards-Steps before) (
        rw (sym (ended-started call setting waiting key outcome t u k f)) (settles key outcome t e))

  -- The upstream has been called for a key no more often than the store has started it.
  Forwards-started :
      {number_of_text : String → Value} {s t : IdempotencyStore R E} {calls : List String}
      → Forwards number_of_text s t calls
      → (key : String) → count key calls + count key s.started ≤ count key t.started
  unfolding begin_forward settle
  Forwards-started (none_yet s) key = omega arith
  Forwards-started {number_of_text} (then_begin {s} {t} {calls} call setting u before e) key =
      omega (
        arith,
        Forwards-started before key,
        count-logged key (called_key call (begin_forward number_of_text call setting (some t)).1)
            calls,
        launch-IsStarted call (resolve_policy setting.source).0
            (class_of (resolve_call_by_name call.tool_name call.input_schema_hash))
            (gate_of number_of_text call setting) t u e key,
      )
  Forwards-started (then_end {s} {t} call setting waiting key outcome u before k e f) j =
      rw (sym (ended-started call setting waiting key outcome t u k f)) (Forwards-started before j)

  -- However guarded calls and the settlements of their promises interleave on a fresh store, among the
  -- calls that reach the upstream at most one has a given key, which a transaction, an approval and a
  -- contract write with a digest have: it is made of the tool's name and the digest.
  pub Forwards-once :
      (number_of_text : String → Value) (s : IdempotencyStore R E) (calls : List String)
      → Forwards number_of_text new_store s calls
      → (key : String) → count key calls ≤ 1
  Forwards-once number_of_text s calls h key =
      omega (arith, Forwards-started h key, (started_once s (Forwards-Steps h) key).0)

  -- Once the upstream has answered for the key of a cleared call, every later cleared call with the key
  -- is returned allowed with that answer, marked as reused, and calls nothing.
  pub launch-reuses :
      (call : ToolCall) (p : Option PolicySnapshot) (k : Option ToolClass) (c : Clearance)
      (key : String) (answer : R) (s t : IdempotencyStore R E)
      → forward_key call c ≡ some key
      → Steps (settle key (fulfilled answer) s) t
      → launch call p k (cleared c) (some t) ≡ (
        some t,
        ended (
            finished (
              allow_result call p
                (record { clearance = c; idempotency_key = some key })
                answer
                true)),
      )
  unfolding launch launch_keyed progress_of
  launch-reuses call p k c key answer s t e steps =
      let filled = key_for-filled call c.semantics.tool_class c.digest key (of_key call c key e) in
      rw (e, begin-settled key (fulfilled answer) s t filled steps) refl
