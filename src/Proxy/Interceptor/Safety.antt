-- ===== src/Proxy/Interceptor/Safety.antt =====
-- What reaches the upstream through the interceptor.
use monad_hackathon.Codes.{ToolClass, read_only, simulation}
use monad_hackathon.Js.{Fields, Value}
use monad_hackathon.Prelude.{
  Bool, Bool-cases, In, List, Option, String, [], ap, arith, eq_iff, false, inl, inr, none, refl,
  some, str_eq, sym, true, ℕ, ◌++◌, ◌||◌, ◌∙◌, ◌∷◌, ◌≡◌, ◌⊎◌,
}
use monad_hackathon.Proxy.Bridge.{
  UpstreamToolDescriptor, fixture, resolve_tool_for_call, with_input_schema_hash,
}
use monad_hackathon.Proxy.Interceptor.{
  CallInterceptor, InterceptOutcome, after_call, block, forward, handle_outcome,
  handle_upstream_call, is_none, meta, or_no_args, plan, plan_resolved, run_forward,
}
use monad_hackathon.Proxy.Schemas.{parse_tool_call_args}
use monad_hackathon.Proxy.Upstream.{
  Outcome, Sdk, UpstreamClient, call_tool, find_descriptor, get_upstream_tool_descriptor, returned,
  threw,
}
use monad_hackathon.ToolSemantics.Registry.{StateEffect, ToolSemantics, allow}
use monad_hackathon.ToolSemantics.Registry.Facts.{registered_default_allow}
use monad_hackathon.ToolSemantics.Resolver.{
  Resolution, Visible, denied, hash_matches, input_schema_hash_of, named, resolve_tool_descriptor,
  visible,
}
use monad_hackathon.ToolSemantics.Resolver.Accepted.{IsAccepted, visible_iff}

find_descriptor-In :
    (name : String) (ds : List UpstreamToolDescriptor) (d : UpstreamToolDescriptor)
    → find_descriptor name ds ≡ some d
    → In d ds × (d.name ≡ name)
unfolding find_descriptor
find_descriptor-In name [] d h = cc
find_descriptor-In name (e ∷ ds) d h = elim (Bool-cases (str_eq e.name name)) [
  | inl same ↦
      let f : e ≡ d = ground arith in
      (
        inl (sym f),
        sym (ap (λ (x : UpstreamToolDescriptor). x.name) f) ∙ (eq_iff e.name name).0 same,
      )
  | inr other ↦ let (i, n) = find_descriptor-In name ds d (rw other at h) in (inr i, n)
]

-- The tool of a call: a descriptor of the cached tools/list that has the name and is accepted.
pub record IsCallable (sha256 : String → String) (u : UpstreamClient) (name : String)
    (s : ToolSemantics) : Type 0 where
  pub descriptor : UpstreamToolDescriptor
  pub listed : In descriptor u.tool_descriptors
  pub resolution : Visible
  pub accepted : IsAccepted (fixture (with_input_schema_hash sha256 descriptor)) resolution
  pub named : descriptor.name ≡ name
  pub semantics : resolution.semantics ≡ s

named-visible :
    (name : String) (w : Visible) → resolve_tool_descriptor (named name none) ≡ visible w → ⊥
unfolding input_schema_hash_of named hash_matches
named-visible name w e = let (h, f, _, _) = ((visible_iff (named name none) w).0 e).reviewed in cc f

module _ (sha256 : String → String) (u : UpstreamClient) (name : String) (v : Visible) where
  resolve_listed :
      (o : Option UpstreamToolDescriptor) (connected : Bool)
      → connected ≡ true
      → resolve_tool_for_call sha256 name o connected ≡ visible v
      → (d : UpstreamToolDescriptor) × (o ≡ some d)
        × (resolve_tool_descriptor (fixture (with_input_schema_hash sha256 d)) ≡ visible v)
  unfolding resolve_tool_for_call
  resolve_listed none false on h = cc
  resolve_listed none true on h = absurd (named-visible name v h)
  resolve_listed (some d) connected on h = (d, refl, h)

  -- While the upstream is connected, a call resolves only to what it lists.
  resolve_tool_for_call-IsCallable :
      u.state.connected ≡ true
      → resolve_tool_for_call sha256 name (get_upstream_tool_descriptor u name) u.state.connected
        ≡ visible v
      → IsCallable sha256 u name v.semantics
  unfolding get_upstream_tool_descriptor
  resolve_tool_for_call-IsCallable on h =
      let (d, found, r) = resolve_listed (find_descriptor name u.tool_descriptors) _ on h in
      let (i, n) = find_descriptor-In name u.tool_descriptors d found in
      record {
        descriptor = d;
        listed = i;
        resolution = v;
        accepted = (visible_iff _ v).0 r;
        named = n;
        semantics = refl;
      }

plan_resolved-forward :
    (unguarded : Bool) (name tool : String) (class : ToolClass) (r : Resolution)
    → plan_resolved unguarded name r ≡ forward tool class
    → (v : Visible) × (r ≡ visible v)
      × (class ≡ v.semantics.tool_class)
      × (tool ≡ name)
      × (unguarded ≡ true → v.semantics.default_decision ≡ allow)
unfolding plan_resolved
plan_resolved-forward unguarded name tool class (denied d) h = cc
plan_resolved-forward unguarded name tool class (visible v) h =
    (v, refl, ground arith, ground arith, ground arith)

module _ (sha256 : String → String) (record_of : Value → Option Fields) (c : CallInterceptor)
    (name : String) (raw_args : Value) where
  -- A planned forward is of a tool that the registry's rules show; without a guarded pipeline, of one
  -- that allows by default.
  record IsPlanned (class : ToolClass) : Type 0 where
    pub resolution : Visible
    pub resolved :
        resolve_tool_for_call sha256 name
          (get_upstream_tool_descriptor c.upstream name)
          c.upstream.state.connected
        ≡ visible resolution
    pub same_class : class ≡ resolution.semantics.tool_class
    pub default : is_none c.guarded ≡ true → resolution.semantics.default_decision ≡ allow

  plan-IsPlanned :
      (tool : String) (class : ToolClass)
      → (plan sha256 record_of c name raw_args).0 ≡ forward tool class
      → IsPlanned class
  unfolding plan
  plan-IsPlanned tool class h = go (parse_tool_call_args record_of (or_no_args raw_args)) refl
    where
      go :
          (o : Option Fields)
          → parse_tool_call_args record_of (or_no_args raw_args) ≡ o
          → IsPlanned class
      go none e = cc (rw (e, plan) at h)
      go (some args) e =
          elim (Bool-cases (str_eq name "compass_status" || str_eq name "compass_audit_events")) [
            | inl own_tool ↦ cc (rw (e, own_tool, plan) at h)
            | inr other ↦
                let (v, r, k, _, d) =
                  plan_resolved-forward _ name tool class _ (rw (e, other, plan) at h) in
                record { resolution = v; resolved = r; same_class = k; default = d }
          ]

-- A call that is safe to make with no policy: the upstream is connected, and the tool is one of its
-- listed tools that is registered with this schema, reads only, and has no effect on any state.
pub record IsReadingCall (sha256 : String → String) (u : UpstreamClient) (name : String)
    : Type 0 where
  pub semantics : ToolSemantics
  pub callable : IsCallable sha256 u name semantics
  pub connected : u.state.connected ≡ true
  pub allowed : semantics.default_decision ≡ allow
  pub reading : (semantics.tool_class ≡ read_only) ⊎ (semantics.tool_class ≡ simulation)
  pub effect_free : semantics.state_effect ≡ StateEffect.none

callable_reading :
    (sha256 : String → String) (u : UpstreamClient) (name : String) (s : ToolSemantics)
    → IsCallable sha256 u name s
    → u.state.connected ≡ true
    → s.default_decision ≡ allow
    → IsReadingCall sha256 u name
callable_reading sha256 u name s callable on allowed =
    let (reading, effect_free, _) =
      registered_default_allow _ s (rw callable.semantics at callable.accepted.registered)
        allowed in
    record {
      semantics = s;
      callable = callable;
      connected = on;
      allowed = allowed;
      reading = reading;
      effect_free = effect_free;
    }

-- Nothing is sent, or one call of the tool by its name.
abbrev pub SentOnly : String → Type 0 → UpstreamClient → UpstreamClient → Type 0
SentOnly name Safe before after =
    (after.calls ≡ before.calls)
    ⊎ ((args : Fields) × (after.calls
          ≡ before.calls ++ record { name = name; arguments = args } ∷ [])
        × Safe)

module _ (uuid now_iso : ℕ → String) (sdk : Sdk) where
  after_call-upstream :
      (name id : String) (class : ToolClass) (c : CallInterceptor) (answer : Outcome Value)
      → (after_call uuid now_iso sdk name id class c answer).0.upstream ≡ c.upstream
  unfolding after_call
  after_call-upstream name id class c (returned value) = refl
  after_call-upstream name id class c threw = refl

  call_tool-calls :
      (name : String) (args : Fields) (u : UpstreamClient)
      → ((call_tool sdk name args u).0.calls ≡ u.calls)
        ⊎ ((call_tool sdk name args u).0.calls
            ≡ u.calls ++ record { name = name; arguments = args } ∷ [])
  unfolding call_tool
  call_tool-calls name args u = ground arith

  handle_outcome_sends :
      {Safe : Type 0} (name id : String) (args : Fields) (c : CallInterceptor)
      (outcome : InterceptOutcome)
      → c.guarded ≡ none
      → ((tool : String) (class : ToolClass)
          → outcome ≡ forward tool class
          → c.upstream.state.connected ≡ true
          → Safe)
      → SentOnly name Safe c.upstream
          (handle_outcome uuid now_iso sdk name id args c outcome).0.upstream
  unfolding handle_outcome run_forward
  handle_outcome_sends name id args c (meta tool) g safe = inl refl
  handle_outcome_sends name id args c (block tool error) g safe = inl refl
  handle_outcome_sends name id args c (forward tool class) g safe =
      elim (Bool-cases c.upstream.state.connected) [
        | inr off ↦ simp off (inl refl)
        | inl on ↦
            simp (on, g, run_forward, after_call-upstream)
              (elim (call_tool-calls name args c.upstream) [
                | inl same ↦ inl same
                | inr sent ↦ inr (args, sent, safe tool class refl on)
              ])
      ]

-- Without a guarded pipeline, whatever the host asks, the interceptor sends nothing to the upstream,
-- or one call of the asked tool, and then the tool is listed, registered with its reviewed schema,
-- allowed by default, of a reading class and without effect on any state.
pub unguarded_sends_reading_calls :
    (uuid now_iso : ℕ → String) (sdk : Sdk) (sha256 : String → String)
    (record_of : Value → Option Fields) (id name : String) (raw_args : Value) (c : CallInterceptor)
    → c.guarded ≡ none
    → SentOnly name
        (IsReadingCall sha256 c.upstream name)
        c.upstream
        (handle_upstream_call uuid now_iso sdk sha256 record_of id name raw_args c).0.upstream
unfolding handle_upstream_call
unguarded_sends_reading_calls uuid now_iso sdk sha256 record_of id name raw_args c g =
    handle_outcome_sends uuid now_iso sdk name id _ _ _ g λ tool class e on.
      let p = plan-IsPlanned sha256 record_of c name raw_args tool class e in
      callable_reading sha256 c.upstream name p.resolution.semantics
        (resolve_tool_for_call-IsCallable sha256 c.upstream name p.resolution on p.resolved) on
        (p.default (ap is_none g))
