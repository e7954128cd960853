-- ===== src/Queries.antt =====
-- The query hooks of the four domains and of the market, frontend/src/domains/*/hooks and
-- frontend/src/shared/hooks.
pub mod Key
pub mod MutualFunds
pub mod Tax
pub mod Equity
pub mod BudgetFilters
pub mod Budget
pub mod Market
pub mod Invalidation
pub mod Decode
pub mod Keyed
pub mod Reads
pub mod Seen
use finance_buddy.Prelude.{Text}
use finance_buddy.Queries.Key.{Query}
use finance_buddy.Store.{AppState}

pub data Hook : Type 0 where
  mutual_funds : MutualFunds.Hook → Hook
  equity : Equity.Hook → Hook
  tax_expert : Tax.Hook → Hook
  budget : Budget.Hook → Hook
  market : Market.Hook → Hook

-- A hook's query in a state of the store.
unfoldable pub query : (Text → Text) → (Text → Text) → AppState → Hook → Query
unfolding MutualFunds.query Equity.query Tax.query Budget.query Market.query
query lower encode s (mutual_funds h) = MutualFunds.query s h
query lower encode s (equity h) = Equity.query encode s h
query lower encode s (tax_expert h) = Tax.query s h
query lower encode s (budget h) = Budget.query lower encode h
query lower encode s (market h) = Market.query h
