-- ===== src/Proxy/Server/Session.antt =====
-- What the upstream is sent over a session of requests, and what the host was shown.
use mathlib.Core.List.{append-nil, append_assoc}
use monad_hackathon.Js.{Fields, Value}
use monad_hackathon.Prelude.{
  All, Bool-cases, List, Option, String, [], ap, inl, inr, none, refl, str_eq, sym, ℕ, ◌++◌, ◌∙◌,
  ◌∷◌, ◌≡◌,
}
use monad_hackathon.Proxy.Interceptor.{handle_upstream_call, or_no_args}
use monad_hackathon.Proxy.Interceptor.Kept.{Kept, handle_upstream_call-Kept}
use monad_hackathon.Proxy.Interceptor.Safety.{
  IsReadingCall, SentOnly, unguarded_sends_reading_calls,
}
use monad_hackathon.Proxy.Server.{
  ProxyServer, Request, serve, serve_all, serve_call, serve_list, tools_call, tools_list,
}
use monad_hackathon.Proxy.Upstream.{Call, Sdk, UpstreamClient, UpstreamState}

-- All the calls of a client that has sent `xs` since `u`.
abbrev pub HasSent : (Call → Type 0) → UpstreamClient → UpstreamClient → Type 0
HasSent Safe u v = (xs : List Call) × (v.calls ≡ u.calls ++ xs) × All Safe xs

All-append :
    (Safe : Call → Type 0) (xs ys : List Call) → All Safe xs → All Safe ys → All Safe (xs ++ ys)
All-append Safe [] ys a b = b
All-append Safe (x ∷ xs) ys (s, a) b = (s, All-append Safe xs ys a b)

All-mono :
    {Safe Fine : Call → Type 0} (xs : List Call)
    → ((c : Call) → Safe c → Fine c)
    → All Safe xs
    → All Fine xs
All-mono [] f a = tt
All-mono (x ∷ xs) f (s, a) = (f x s, All-mono xs f a)

module _ (sha256 : String → String) where
  -- A reading call, for the client that it is made with.
  abbrev pub IsReading : UpstreamClient → Call → Type 0
  IsReading u c = IsReadingCall sha256 u c.name

  IsReading-moves :
      (u v : UpstreamClient) (c : Call)
      → v.state ≡ u.state
      → v.tool_descriptors ≡ u.tool_descriptors
      → IsReading v c
      → IsReading u c
  IsReading-moves u v c s d r = record {
    semantics = r.semantics;
    callable = record {
      descriptor = r.callable.descriptor;
      listed = rw d at r.callable.listed;
      resolution = r.callable.resolution;
      accepted = r.callable.accepted;
      named = r.callable.named;
      semantics = r.callable.semantics;
    };
    connected = ap (λ (x : UpstreamState). x.connected) (sym s) ∙ r.connected;
    allowed = r.allowed;
    reading = r.reading;
    effect_free = r.effect_free;
  }

  HasSent-trans :
      (u v w : UpstreamClient)
      → v.state ≡ u.state
      → v.tool_descriptors ≡ u.tool_descriptors
      → HasSent (IsReading u) u v
      → HasSent (IsReading v) v w
      → HasSent (IsReading u) u w
  HasSent-trans u v w s d (xs, e, a) (ys, f, b) = (
    xs ++ ys,
    f ∙ ap (λ zs. zs ++ ys) e ∙ append_assoc u.calls xs ys,
    All-append (IsReading u) xs ys a (All-mono ys (λ c. IsReading-moves u v c s d) b),
  )

  HasSent-of_SentOnly :
      (name : String) (u v : UpstreamClient)
      → SentOnly name (IsReadingCall sha256 u name) u v
      → HasSent (IsReading u) u v
  HasSent-of_SentOnly name u v (inl same) = ([], same ∙ sym (append-nil u.calls), tt)
  HasSent-of_SentOnly name u v (inr (args, sent, safe)) = (_, sent, (safe, tt))

module _ (uuid now_iso : ℕ → String) (sdk : Sdk) (sha256 : String → String)
    (record_of : Value → Option Fields) (floor_positive : String → Option ℕ) where
  -- A request's reading calls, and what it leaves as it is.
  abbrev Served : ProxyServer → ProxyServer → Type 0
  Served s t =
      HasSent (IsReading sha256 s.interceptor.upstream) s.interceptor.upstream
        t.interceptor.upstream
      × Kept s.interceptor t.interceptor

  Served-nothing :
      (s : ProxyServer) (t : ProxyServer)
      → s.interceptor.guarded ≡ none
      → t.interceptor.upstream ≡ s.interceptor.upstream
      → t.interceptor.guarded ≡ s.interceptor.guarded
      → Served s t
  Served-nothing s t g e k = (
    (
      [],
      ap (λ (u : UpstreamClient). u.calls) e ∙ sym (append-nil s.interceptor.upstream.calls),
      tt,
    ),
    record {
      unguarded = k ∙ g;
      state = ap (λ (u : UpstreamClient). u.state) e;
      descriptors = ap (λ (u : UpstreamClient). u.tool_descriptors) e;
      names = ap (λ (u : UpstreamClient). u.tool_names) e;
    },
  )

  serve_call-Served :
      (id name : String) (raw_args : Value) (s : ProxyServer)
      → s.interceptor.guarded ≡ none
      → Served s (serve_call uuid now_iso sdk sha256 record_of floor_positive id name raw_args s).0
  unfolding serve_call
  serve_call-Served id name raw_args s g =
      let done =
        handle_upstream_call uuid now_iso sdk sha256 record_of id name (or_no_args raw_args)
          s.interceptor in
      elim (Bool-cases (str_eq name "compass_status")) [
        | inl status ↦ simp status (Served-nothing s s g refl refl)
        | inr other ↦ elim (Bool-cases (str_eq name "compass_audit_events")) [
          | inl events ↦ simp (other, events) (Served-nothing s s g refl refl)
          | inr neither ↦
              simp (other, neither)
                (
                  HasSent-of_SentOnly sha256 name s.interceptor.upstream done.0.upstream (
                      unguarded_sends_reading_calls uuid now_iso sdk sha256 record_of id name _
                        s.interceptor g),
                  handle_upstream_call-Kept uuid now_iso sdk sha256 record_of id name _
                      s.interceptor g,
                )
        ]
      ]

  serve-Served :
      (q : Request) (s : ProxyServer)
      → s.interceptor.guarded ≡ none
      → Served s (serve uuid now_iso sdk sha256 record_of floor_positive q s).0
  unfolding serve serve_list
  serve-Served tools_list s g =
      Served-nothing s (serve_list uuid now_iso sdk sha256 record_of floor_positive s).0 g refl refl
  serve-Served (tools_call id name raw_args) s g = serve_call-Served id name raw_args s g

-- Over a whole session without a guarded pipeline, every call that the upstream is sent is of a tool
-- that it lists, registered with its reviewed schema, allowed by default, of a reading class and
-- without effect on any state; and none is sent unless the upstream is connected.
pub serve_all-HasSent :
    (uuid now_iso : ℕ → String) (sdk : Sdk) (sha256 : String → String)
    (record_of : Value → Option Fields) (floor_positive : String → Option ℕ) (qs : List Request)
    (s : ProxyServer)
    → s.interceptor.guarded ≡ none
    → HasSent
        (IsReading sha256 s.interceptor.upstream)
        s.interceptor.upstream
        (serve_all uuid now_iso sdk sha256 record_of floor_positive qs s).interceptor.upstream
unfolding serve_all
serve_all-HasSent uuid now_iso sdk sha256 record_of floor_positive [] s g =
    (Served-nothing uuid now_iso sdk sha256 record_of floor_positive s s g refl refl).0
serve_all-HasSent uuid now_iso sdk sha256 record_of floor_positive (q ∷ qs) s g =
    let (sent, k) = serve-Served uuid now_iso sdk sha256 record_of floor_positive q s g in
    let t = (serve uuid now_iso sdk sha256 record_of floor_positive q s).0 in
    let end_state = serve_all uuid now_iso sdk sha256 record_of floor_positive qs t in
    HasSent-trans sha256 s.interceptor.upstream t.interceptor.upstream
      end_state.interceptor.upstream k.state k.descriptors sent
      (serve_all-HasSent uuid now_iso sdk sha256 record_of floor_positive qs t k.unguarded)
