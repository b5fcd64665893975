-- ===== src/Source.antt =====
-- packages/coding-agent/src/policy-source: readPaged of policyContractClient.js, and policySnapshot.js
-- in the child Snapshot, `fetchPolicySnapshot` in Fetch, policySourceConfig.js in Config. A contract's page function answers a cursor and a size with the page and the
-- next cursor, `none` where the call throws; counts and cursors are naturals.
pub mod Paged
pub mod Snapshot
pub mod Config
pub mod Fetch
pub mod Demo
mod Tests
use monad_hackathon.Prelude.{
  List, Option, [], if◌then◌else◌, leb, ltb, none, some, suc, zero, ℕ, ◌++◌, ◌+◌, ◌-◌,
}

abbrev pub PageFunction : Type 0 → Type 0
PageFunction A = ℕ → ℕ → Option (List A × ℕ)

-- `stalled` is the error of a cursor that does not grow, `page_failed` a call that throws;
-- `no_fuel` cannot happen with enough fuel.
pub data Paging (A : Type 0) : Type 0 where
  pages : List A → Paging A
  page_failed stalled no_fuel : Paging A

-- `Math.min`
abbrev pub smaller : ℕ → ℕ → ℕ
smaller a b = if leb a b then a else b

module _ {A : Type 0} where
  -- The rest of the loop, once a page has come.
  unfoldable pub after_page : List A → Paging A → Paging A
  after_page page (pages values) = pages (page ++ values)
  after_page page other = other

  -- The body of the loop, from the answer on.
  unfoldable pub page_step : ℕ → Option (List A × ℕ) → (ℕ → Paging A) → Paging A
  unfolding after_page
  page_step cursor none rest = page_failed
  page_step cursor (some (page, next)) rest =
      if leb next cursor then stalled else after_page page (rest next)

  -- The loop from a cursor on.
  unfoldable pub read_from : ℕ → PageFunction A → ℕ → ℕ → ℕ → Paging A
  unfolding page_step
  read_from zero read_page size total cursor = no_fuel
  read_from (suc fuel) read_page size total cursor =
      let rest : ℕ → Paging A = λ next. read_from fuel read_page size total next in
      let step = page_step cursor (read_page cursor (smaller size (total - cursor))) rest in
      if ltb cursor total then step else pages []

  -- A page size of 64; the cursor grows, so the fuel is the number of the entries and one.
  unfoldable pub read_paged : PageFunction A → ℕ → Paging A
  unfolding read_from
  read_paged read_page total = read_from (total + 1) read_page 64 total 0
