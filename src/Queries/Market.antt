-- ===== src/Queries/Market.antt =====
-- frontend/src/shared/hooks/useMarket.ts
use finance_buddy.Api.MutualFunds
use finance_buddy.Api.MutualFunds.{get_market_summary, get_market_config}
use finance_buddy.Prelude.{Bool, Option, [], true, ◌∷◌}
use finance_buddy.Queries.Key.{Query, name}
use finance_buddy.Store.{given}

pub data Hook : Type 0 where
  use_market_summary : (enabled : Option Bool) → Hook
  use_market_config : Hook

unfoldable pub query : Hook → Query
unfolding MutualFunds.request
query (use_market_summary enabled) = record {
  key = name "market-summary" ∷ [];
  request = MutualFunds.request get_market_summary;
  enabled = given enabled true;
}
query use_market_config = record {
  key = name "market-config" ∷ [];
  request = MutualFunds.request get_market_config;
  enabled = true;
}
