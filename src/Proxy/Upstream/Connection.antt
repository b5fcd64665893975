-- ===== src/Proxy/Upstream/Connection.antt =====
-- The life of the connection: what `connect` leaves behind, and what it sends.
use mathlib.Core.List.{append-nil, append_assoc}
use monad_hackathon.Js.{Value}
use monad_hackathon.Prelude.{
  Bool, Bool-cases, In, List, String, [], ap, arith, false, inl, inr, refl, some, sym, true, ◌++◌,
  ◌↔◌, ◌∙◌, ◌∷◌, ◌≡◌, ◌⊎◌,
}
use monad_hackathon.Proxy.Upstream.{
  BootstrapEnv, Call, Outcome, Sdk, Settled, Tool, UpstreamClient, UpstreamState, add_chain_call,
  bootstrap_monad_chain, connect, import_key_call, listed, rejected, resolved, returned, send_both,
  set_chain, set_signer, switch_chain_call, threw, timed_out, wallet_type_call,
}

-- After some calls, the first call, and the second one exactly where the first is answered.
abbrev pub Sends : Sdk → List Call → Call → Call → List Call → Type 0
Sends sdk before a b xs =
    ((sdk.respond before a ≡ threw) × (xs ≡ a ∷ []))
    ⊎ ((answer : Value) × (sdk.respond before a ≡ returned answer) × (xs ≡ a ∷ b ∷ []))

-- The signer is set up only where the environment names one.
abbrev pub SignerPart : Sdk → List Call → Bool → List Call → Type 0
SignerPart sdk before has_signer xs =
    ((has_signer ≡ false) × (xs ≡ []))
    ⊎ ((has_signer ≡ true) × Sends sdk before import_key_call wallet_type_call xs)

module _ (sdk : Sdk) where
  send_both-calls :
      (u : UpstreamClient) (a b : Call)
      → (xs : List Call) × Sends sdk u.calls a b xs
        × ((send_both sdk u a b).0.calls ≡ u.calls ++ xs)
        × ((send_both sdk u a b).0.state ≡ u.state)
        × ((send_both sdk u a b).1 ≡ true → xs ≡ a ∷ b ∷ [])
  unfolding send_both
  send_both-calls u a b = go (sdk.respond u.calls a) refl
    where
      go :
          (o : Outcome Value)
          → sdk.respond u.calls a ≡ o
          → (xs : List Call) × Sends sdk u.calls a b xs
            × ((send_both sdk u a b).0.calls ≡ u.calls ++ xs)
            × ((send_both sdk u a b).0.state ≡ u.state)
            × ((send_both sdk u a b).1 ≡ true → xs ≡ a ∷ b ∷ [])
      go threw e = (a ∷ [], inl (e, refl), ground (arith, e), ground (arith, e), ground (arith, e))
      go (returned v) e = (
        a ∷ b ∷ [],
        inr (v, e, refl),
        ground (arith, append_assoc u.calls (a ∷ []) (b ∷ [])),
        ground arith,
        λ _. refl,
      )

  bootstrap-state :
      (env : BootstrapEnv) (u : UpstreamClient) → (bootstrap_monad_chain sdk env u).state ≡ u.state
  unfolding bootstrap_monad_chain
  bootstrap-state env u = ground arith

  bootstrap_calls :
      (env : BootstrapEnv) (u : UpstreamClient)
      → u.has_client ≡ true
      → (chain signer : List Call) × ((bootstrap_monad_chain sdk env u).calls
          ≡ u.calls ++ (chain ++ signer))
        × Sends sdk u.calls (add_chain_call env.rpc_url) switch_chain_call chain
        × SignerPart sdk (u.calls ++ chain) env.has_signer signer
  unfolding bootstrap_monad_chain set_chain set_signer
  bootstrap_calls env u h =
      let (xs, sent, e, _, _) = send_both-calls u (add_chain_call env.rpc_url) switch_chain_call in
      let v = set_chain sdk env.rpc_url u in
      let (ys, sent', e', _, _) = send_both-calls v import_key_call wallet_type_call in
      elim (Bool-cases env.has_signer) [
        | inl y ↦ (
          xs,
          ys,
          simp (h, y) (e' ∙ ap (λ c. c ++ ys) e ∙ append_assoc u.calls xs ys),
          sent,
          inr (y, rw (sym e) sent'),
        )
        | inr n ↦ (xs, [], simp (h, n) (rw append-nil e), sent, inl (n, refl))
      ]

  module _ (sha256 : String → String) (env : BootstrapEnv) (u : UpstreamClient) where
    connect_listed :
        (tools : List Tool)
        → sdk.transport_made ≡ true
        → sdk.handshake ≡ resolved tt
        → sdk.list_tools ≡ resolved tools
        → connect sdk sha256 env u
          ≡ bootstrap_monad_chain sdk env
              (listed sdk sha256 tools (record u { has_transport = true; has_client = true }))
    unfolding connect
    connect_listed tools p q r = simp (p, q, r)

    connect_failed :
        ((sdk.transport_made ≡ true)
          × (sdk.handshake ≡ resolved tt)
          × ((tools : List Tool) × (sdk.list_tools ≡ resolved tools)))
        ⊎ (((connect sdk sha256 env u).state.connected ≡ false)
            × ((connect sdk sha256 env u).calls ≡ u.calls)
            × ((reason : String) × ((connect sdk sha256 env u).state.reason ≡ some reason)
                × In reason (
                    "timeout during connect" ∷ "timeout during list"
                    ∷ "upstream failed to start or handshake" ∷ [])))
    unfolding connect
    connect_failed = go sdk.transport_made sdk.handshake sdk.list_tools refl refl refl
      where
        go :
            (made : Bool) (hand : Settled Unit) (list : Settled (List Tool))
            → sdk.transport_made ≡ made
            → sdk.handshake ≡ hand
            → sdk.list_tools ≡ list
            → ((sdk.transport_made ≡ true)
                × (sdk.handshake ≡ resolved tt)
                × ((tools : List Tool) × (sdk.list_tools ≡ resolved tools)))
              ⊎ (((connect sdk sha256 env u).state.connected ≡ false)
                  × ((connect sdk sha256 env u).calls ≡ u.calls)
                  × ((reason : String) × ((connect sdk sha256 env u).state.reason ≡ some reason)
                      × In reason (
                          "timeout during connect" ∷ "timeout during list"
                          ∷ "upstream failed to start or handshake" ∷ [])))
        go false hand list p q r = inr (simp p (refl, refl, (_, refl, inr (inr (inl refl)))))
        go true rejected list p q r =
            inr (simp (p, q) (refl, refl, (_, refl, inr (inr (inl refl)))))
        go true timed_out list p q r = inr (simp (p, q) (refl, refl, (_, refl, inl refl)))
        go true (resolved _) rejected p q r =
            inr (simp (p, q, r) (refl, refl, (_, refl, inr (inr (inl refl)))))
        go true (resolved _) timed_out p q r =
            inr (simp (p, q, r) (refl, refl, (_, refl, inr (inl refl))))
        go true (resolved done) (resolved tools) p q r = inl (p, q, (tools, r))

    -- A client is connected after `connect` exactly when its transport is made, and the handshake
    -- and tools/list are answered in time.
    pub connect_connected_iff : ((connect sdk sha256 env u).state.connected ≡ true) ↔ (
        (sdk.transport_made ≡ true)
        × (sdk.handshake ≡ resolved tt)
        × ((tools : List Tool) × (sdk.list_tools ≡ resolved tools)))
    unfolding listed
    connect_connected_iff = (
      λ h. elim connect_failed [ inl y ↦ y | inr (n, _, _) ↦ cc ],
      λ (p, q, (tools, r)).
          ap (λ (x : UpstreamClient). x.state.connected) (connect_listed tools p q r)
          ∙ ap (λ (x : UpstreamState). x.connected) (bootstrap-state env _),
    )

    -- Where `connect` does not end connected, nothing has been sent to the upstream, and the reason is
    -- one of three fixed texts.
    pub connect-reason :
        (connect sdk sha256 env u).state.connected ≡ false
        → ((connect sdk sha256 env u).calls ≡ u.calls)
          × ((reason : String) × ((connect sdk sha256 env u).state.reason ≡ some reason)
              × In reason (
                  "timeout during connect" ∷ "timeout during list"
                  ∷ "upstream failed to start or handshake" ∷ []))
    connect-reason h = elim connect_failed [
      | inl y ↦ cc (connect_connected_iff.1 y)
      | inr (_, calls, reason) ↦ (calls, reason)
    ]

    -- Where `connect` ends connected, it has sent add_custom_chain, then switch_chain if the first has
    -- returned, and only after these, and only if the environment names a signer,
    -- import_private_key with the name of a variable, then set_wallet_type if that has returned.
    pub connect_calls :
        (connect sdk sha256 env u).state.connected ≡ true
        → (chain signer : List Call) × ((connect sdk sha256 env u).calls
            ≡ u.calls ++ (chain ++ signer))
          × Sends sdk u.calls (add_chain_call env.rpc_url) switch_chain_call chain
          × SignerPart sdk (u.calls ++ chain) env.has_signer signer
    unfolding listed
    connect_calls h =
        let (p, q, (tools, r)) = connect_connected_iff.0 h in
        let (chain, signer, e, c, s) =
          bootstrap_calls env
            (listed sdk sha256 tools (record u { has_transport = true; has_client = true })) refl in
        (chain, signer, ap (λ (x : UpstreamClient). x.calls) (connect_listed tools p q r) ∙ e, c, s)
