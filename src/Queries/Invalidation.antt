-- ===== src/Queries/Invalidation.antt =====
-- Which cached queries each invalidation reaches: invalidateSessionQueries.ts, and the invalidations
-- of useTaxExpert.ts and useBudget.ts. A filter `{ queryKey }` is compared by react-query;
-- `matches` says how.
pub mod Modules
pub mod Scoped
use finance_buddy.Prelude.{
  Bool, List, Option, String, Text, [], any, codes, false, if◌then◌else◌, map, none, some, text_eq,
  true, ◌&&◌, ◌==◌, ◌||◌, ◌∷◌, ◌≡◌,
}
use finance_buddy.Queries.Key.{Part, Key, name, str, nothing}

pub data Filter : Type 0 where
  every : Filter
  query_key : Key → Filter
  predicate : (Key → Bool) → Filter

-- What the filters of the program need of react-query's comparison: it asks whether the texts of
-- the filter's key begin the query's key.
pub record ComparesPrefix (matches : Key → Key → Bool) : Type 0 where
  pub matches_nil : (key : Key) → matches [] key ≡ true
  pub matches_str :
      (a b : Text) (prefix key : Key)
      → matches (str a ∷ prefix) (str b ∷ key) ≡ (text_eq a b && matches prefix key)
  pub matches_nothing :
      (a : Text) (prefix key : Key) → matches (str a ∷ prefix) (nothing ∷ key) ≡ false
  pub matches_short : (a : Text) (prefix : Key) → matches (str a ∷ prefix) [] ≡ false

-- Whether one of the invalidations reaches a key.
unfoldable pub reaches : (Key → Key → Bool) → List Filter → Key → Bool
reaches matches [] key = false
reaches matches (every ∷ filters) key = true
reaches matches (query_key prefix ∷ filters) key = matches prefix key || reaches matches filters key
reaches matches (predicate p ∷ filters) key = p key || reaches matches filters key

abbrev pub mf_root_keys : List Text
mf_root_keys =
    codes "summary"
    ∷ codes "overview"
    ∷ codes "benchmark-overlay"
    ∷ codes "holdings"
    ∷ codes "allocation"
    ∷ codes "performance"
    ∷ codes "rebalance"
    ∷ codes "tax-harvest"
    ∷ codes "sip-projection"
    ∷ codes "xirr-by-fy"
    ∷ codes "sip-attribution"
    ∷ codes "what-if"
    ∷ codes "mandate-overlap"
    ∷ codes "insights"
    ∷ codes "journey"
    ∷ codes "fund-insights"
    ∷ codes "transactions"
    ∷ codes "rollingReturns"
    ∷ codes "assetHistory"
    ∷ codes "tickerSearch"
    ∷ codes "whatIfSearch"
    ∷ []

abbrev pub is_mf_key : Key → Bool
is_mf_key (str root ∷ rest) = any (text_eq root) mf_root_keys
is_mf_key _ = false

unfoldable pub invalidate_mutual_fund_queries : List Filter
invalidate_mutual_fund_queries = predicate is_mf_key ∷ []

unfoldable pub invalidate_equity_queries : List Filter
invalidate_equity_queries = query_key (name "equity" ∷ []) ∷ []

abbrev pub tax_root_keys : List String
tax_root_keys =
    "tax-expert-summary" ∷ "tax-expert-income" ∷ "tax-expert-capital-gains" ∷ "tax-expert-compare"
    ∷ "tax-expert-itr" ∷ "tax-history" ∷ "tax-sessions" ∷ "accounts-summary" ∷ []

unfoldable pub invalidate_tax_queries : List Filter
invalidate_tax_queries = map (λ root. query_key (name root ∷ [])) tax_root_keys

unfoldable pub invalidate_budget_queries : List Filter
invalidate_budget_queries = query_key (name "budget" ∷ []) ∷ []

unfoldable pub invalidate_module_queries : String → List Filter
unfolding invalidate_mutual_fund_queries invalidate_equity_queries invalidate_tax_queries
    invalidate_budget_queries
invalidate_module_queries m =
    if m == "mutual_funds"
    then invalidate_mutual_fund_queries
    else if (m == "equity") || (m == "indian_stocks")
    then invalidate_equity_queries
    else if m == "tax_expert"
    then invalidate_tax_queries
    else if m == "budget"
    then invalidate_budget_queries
    else every ∷ []

abbrev pub session_root_keys : List String
session_root_keys =
    "tax-expert-summary" ∷ "tax-expert-capital-gains" ∷ "tax-expert-compare" ∷ "tax-expert-income"
    ∷ []

-- useTaxExpert.ts: after an override or a changed cost in one session.
unfoldable pub invalidate_session_queries : Option Text → List Filter
invalidate_session_queries none = []
invalidate_session_queries (some []) = []
invalidate_session_queries (some (c ∷ sid)) =
    map (λ root. query_key (name root ∷ str (c ∷ sid) ∷ [])) session_root_keys

abbrev analytics_keys : List Text
analytics_keys = codes "overview" ∷ codes "categories" ∷ codes "transactions" ∷ []

abbrev is_analytics_part : Part → Bool
is_analytics_part (str second) = any (text_eq second) analytics_keys
is_analytics_part _ = false

abbrev is_analytics_key : Key → Bool
is_analytics_key (str root ∷ (second ∷ rest)) =
    text_eq root (codes "budget") && is_analytics_part second
is_analytics_key _ = false

-- useBudget.ts: after transactions were put into other categories.
unfoldable pub invalidate_budget_analytics : List Filter
invalidate_budget_analytics = predicate is_analytics_key ∷ []
