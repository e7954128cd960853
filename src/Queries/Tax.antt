-- ===== src/Queries/Tax.antt =====
-- The queries of frontend/src/domains/tax-expert/hooks/useTaxExpert.ts.
use finance_buddy.Api.Tax
use finance_buddy.Api.Tax.{
  get_itr_data, get_tax_expert_summary, get_tax_expert_income, get_tax_expert_capital_gains,
  compare_tax_regimes, get_tax_rules, request, Call,
}
use finance_buddy.Prelude.{List, Option, String, Text, [], codes, some, true, truthy, ◌∷◌}
use finance_buddy.Queries.Key.{Part, Query, name, id_part, forced, str}
use finance_buddy.Store.{AppState, given}

pub data Hook : Type 0 where
  use_itr_data use_tax_expert_income use_tax_expert_capital_gains use_tax_regime_comparison
        use_tax_rules :
      Hook
  use_tax_expert_summary : (regime : Option Text) → Hook

abbrev query_of : Option Text → String → List Part → Tax.Call → Query
query_of sid root rest call = record {
  key = name root ∷ id_part sid ∷ rest;
  request = Tax.request call;
  enabled = truthy sid;
}

unfoldable pub query : AppState → Hook → Query
unfolding Tax.request
query s use_itr_data =
    query_of s.tax_session_id "tax-expert-itr" [] (get_itr_data (forced s.tax_session_id))
query s (use_tax_expert_summary regime) =
    let r = given regime (codes "new") in
    query_of s.tax_session_id "tax-expert-summary" (str r ∷ [])
      (get_tax_expert_summary (forced s.tax_session_id) (some r))
query s use_tax_expert_income =
    query_of s.tax_session_id "tax-expert-income" []
      (get_tax_expert_income (forced s.tax_session_id))
query s use_tax_expert_capital_gains =
    query_of s.tax_session_id "tax-expert-capital-gains" []
      (get_tax_expert_capital_gains (forced s.tax_session_id))
query s use_tax_regime_comparison =
    query_of s.tax_session_id "tax-expert-compare" []
      (compare_tax_regimes (forced s.tax_session_id))
query s use_tax_rules = record {
  key = name "tax-rules" ∷ [];
  request = Tax.request get_tax_rules;
  enabled = true;
}
