-- ===== src/Policy/Quiet.antt =====
-- When a check of packages/coding-agent/src/risk/riskChecks.js adds no reason.
use Prim.Native.String.{◌++◌ as ◌+++◌}
use monad_hackathon.Codes.{missing_required_evidence, policy_unlimited_approval_blocked}
use monad_hackathon.Js.{Fields, Value, get, truthy}
use monad_hackathon.Policy.{PolicySnapshot, SpenderLimit}
use monad_hackathon.Policy.Checks.{
  add_if, amount_big_int, amount_of, approval_reasons, find_limit, gas_over_cap, has_evidence,
  includes_address, is_approval, is_unlimited, is_write_class, joined, limit_reasons,
  missing_reasons, not_listed, over, reason, simulation_reasons, status_is,
}
use monad_hackathon.Prelude.{
  Bool, Bool-cases, In, List, Option, String, [], ap, arith, false, if◌then◌else◌, inl, inr, none,
  not, refl, some, true, ℕ, ◌&&◌, ◌++◌, ◌||◌, ◌↔◌, ◌∷◌, ◌≡◌, ◌≤◌,
}
use monad_hackathon.Risk.{RiskReason, critical, high}
use monad_hackathon.ToolSemantics.Registry.{ToolSemantics}

pub append_nil : {A : Type 0} (xs ys : List A) → (xs ++ ys ≡ []) ↔ ((xs ≡ []) × (ys ≡ []))
append_nil [] ys = (λ e. (refl, e), λ (_, e). e)
append_nil (x ∷ xs) ys = (λ e. cc, λ (e, _). cc)

pub add_if_nil : (b : Bool) (r : RiskReason) → (add_if b r ≡ []) ↔ (b ≡ false)
unfolding add_if
add_if_nil true r = (λ e. cc, λ e. cc)
add_if_nil false r = (λ e. refl, λ e. refl)

pub missing_nil :
    (evidence : Fields) (names : List String)
    → (missing_reasons evidence names ≡ [])
      ↔ ((name : String) → In name names → has_evidence evidence name ≡ true)
unfolding missing_reasons
missing_nil evidence [] = (λ e name i. absurd i, λ h. refl)
missing_nil evidence (n ∷ names) =
    let here =
      add_if_nil (not (has_evidence evidence n))
        (reason missing_required_evidence high "tool_semantics" ("Missing " +++ (n +++ "."))) in
    let both =
      append_nil
        (add_if (not (has_evidence evidence n))
          (reason missing_required_evidence high "tool_semantics" ("Missing " +++ (n +++ "."))))
        (missing_reasons evidence names) in
    (
      λ e name i. elim i [
        | inl same ↦ rw same (ground (arith, here.0 (both.0 e).0))
        | inr later ↦ (missing_nil evidence names).0 (both.0 e).1 name later
      ],
      λ h. both.1 (
        here.1 (ground (arith, h n (inl refl))),
        (missing_nil evidence names).1 (λ name i. h name (inr i)),
      ),
    )

pub over_iff : (o : Option ℕ) (cap : ℕ) → (over o cap ≡ false) ↔ ((n : ℕ) → o ≡ some n → n ≤ cap)
unfolding over
over_iff none cap = (λ e n h. cc, λ h. refl)
over_iff (some m) cap = (λ e n h. ground (arith, e, h), λ h. ground (arith, h m refl))

pub not_listed_iff :
    (list : List String) (v : Value)
    → (not_listed list v ≡ false) ↔ (truthy v ≡ true → includes_address list v ≡ true)
unfolding not_listed
not_listed_iff list v = (
  λ e t. ground arith,
  λ h. elim (Bool-cases (truthy v)) [ inl t ↦ ground (arith, t, h t) | inr f ↦ ground (arith, f) ],
)

pub simulation_cases :
    (write given lost no_host : Bool) (r1 r2 r3 : RiskReason)
    → ((if write
          then if not given then r1 ∷ [] else if lost then r2 ∷ [] else add_if no_host r3
          else [])
        ≡ [])
      ↔ (write ≡ true → (given ≡ true) × (lost ≡ false) × (no_host ≡ false))
unfolding add_if
simulation_cases false given lost no_host r1 r2 r3 = (λ e t. cc, λ h. refl)
simulation_cases true false lost no_host r1 r2 r3 = (λ e. cc, λ h. cc (h refl).0)
simulation_cases true true true no_host r1 r2 r3 = (λ e. cc, λ h. cc (h refl).1)
simulation_cases true true false true r1 r2 r3 = (λ e. cc, λ h. cc (h refl).2)
simulation_cases true true false false r1 r2 r3 = (λ e t. (refl, refl, refl), λ h. refl)

pub simulation_nil :
    (s : ToolSemantics) (evidence : Fields)
    → (simulation_reasons s evidence ≡ []) ↔ (
        (is_write_class s.tool_class || s.requires_simulation) ≡ true
        → (truthy (get "simulation" evidence) ≡ true)
          × (status_is "failed" (get "simulation" evidence) ≡ false)
          × (status_is "unavailable" (get "simulation" evidence) ≡ false))
unfolding simulation_reasons add_if
simulation_nil s evidence = simulation_cases _ _ _ _ _ _ _

pub limit_nil :
    (amount : Option ℕ) (o : Option SpenderLimit)
    → (limit_reasons amount o ≡ [])
      ↔ ((l : SpenderLimit) × (o ≡ some l) × ((n : ℕ) → amount ≡ some n → n ≤ l.max_amount_atomic))
unfolding limit_reasons
limit_nil amount none = (λ e. cc, λ (l, e, h). cc)
limit_nil amount (some l) = (
  λ e. (l, refl, (over_iff amount l.max_amount_atomic).0 ((add_if_nil _ _).0 e)),
  λ (m, e, h).
      let same : l ≡ m = ground arith in
      let cap : l.max_amount_atomic ≡ m.max_amount_atomic =
        ap (λ (x : SpenderLimit). x.max_amount_atomic) same in
      (add_if_nil _ _).1
        ((over_iff amount l.max_amount_atomic).1 (λ n q. omega (arith, h n q, cap))),
)

pub approval_nil :
    (s : ToolSemantics) (evidence : Fields) (p : PolicySnapshot)
    → (approval_reasons s evidence p ≡ []) ↔ (
        is_approval s.tool_class ≡ true
        → (is_unlimited evidence ≡ false)
          × ((l : SpenderLimit) × (find_limit
                  (get "token" evidence)
                  (get "spender" evidence)
                  p.allowed_spenders
                ≡ some l)
              × ((n : ℕ) → amount_of evidence ≡ some n → n ≤ l.max_amount_atomic)))
unfolding approval_reasons
approval_nil s evidence p = elim (Bool-cases (is_approval s.tool_class)) [
  | inr other ↦ (λ e t. cc, λ h. simp other refl)
  | inl approval ↦
      let unlimited =
        reason policy_unlimited_approval_blocked critical "token_approval" "Unlimited approval." in
      let limit = find_limit (get "token" evidence) (get "spender" evidence) p.allowed_spenders in
      let both =
        append_nil (add_if (is_unlimited evidence) unlimited)
          (limit_reasons (amount_of evidence) limit) in
      (
        λ e t.
            let (a, b) = both.0 (simp approval at e) in
            ((add_if_nil _ unlimited).0 a, (limit_nil (amount_of evidence) limit).0 b),
        λ h.
            let (a, b) = h approval in
            simp approval
              (both.1 ((add_if_nil _ unlimited).1 a, (limit_nil (amount_of evidence) limit).1 b)),
      )
]

-- Every list is empty.
abbrev pub EachNil : List (List RiskReason) → Type 0
EachNil [] = Unit
EachNil (rs ∷ rss) = (rs ≡ []) × EachNil rss

pub joined_nil : (rss : List (List RiskReason)) → (joined rss ≡ []) ↔ EachNil rss
unfolding joined
joined_nil [] = (λ e. tt, λ h. refl)
joined_nil (rs ∷ rss) =
    let (a, b) = append_nil rs (joined rss) in
    let (c, d) = joined_nil rss in (λ e. ((a e).0, c (a e).1), λ (h, k). b (h, d k))

pub chain_iff :
    (present_id right : Bool)
    → (present_id && not right ≡ false) ↔ (present_id ≡ true → right ≡ true)
chain_iff true true = (λ e h. refl, λ h. refl)
chain_iff true false = (λ e h. cc, λ h. cc (h refl))
chain_iff false right = (λ e h. cc, λ h. refl)

pub gas_iff :
    (evidence : Fields) (p : PolicySnapshot)
    → (gas_over_cap evidence p ≡ false) ↔ (
        truthy (get "estimated_gas_cost_wei" evidence) ≡ true
        → (n : ℕ) → amount_big_int (get "estimated_gas_cost_wei" evidence) ≡ some n
        → n ≤ p.caps.max_gas_cost_wei)
unfolding gas_over_cap
gas_iff evidence p =
    let (a, b) =
      over_iff (amount_big_int (get "estimated_gas_cost_wei" evidence)) p.caps.max_gas_cost_wei in
    elim (Bool-cases (truthy (get "estimated_gas_cost_wei" evidence))) [
      | inl given ↦ (λ e t. a (simp given at e), λ h. simp given (b (h given)))
      | inr missing_cost ↦ (λ e t. cc, λ h. simp missing_cost refl)
    ]
