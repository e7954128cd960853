-- ===== src/Budget/Dashboard/Reset.antt =====
-- What the queries are sent when no filter is set.
use finance_buddy.Api.Request.{Params}
use finance_buddy.Budget.Dashboard.{
  one_if_set, unset, current_filters, total_active_filters_count, Dashboard,
}
use finance_buddy.Prelude.{
  String, Text, [], arith, is_empty, refl, some, text_eq→eq, true, ◌∷◌, ◌≡◌, trim,
}
use finance_buddy.Queries.BudgetFilters.{to_query_params, put, set_given}

one_if_set-none : (f : Text) → one_if_set f ≡ 0 → f ≡ unset
one_if_set-none f h = text_eq→eq f unset (ground arith)

is_empty→eq : (t : Text) → is_empty t ≡ true → t ≡ []
is_empty→eq [] h = refl
is_empty→eq (c ∷ t) h = cc

put-unset :
    (lower : Text → Text) (key : String) (f : Text) (params : Params)
    → lower unset ≡ unset
    → f ≡ unset
    → put lower key (some f) params ≡ params
unfolding put
put-unset lower key f params l e = rw (e, l) refl

-- If "all" is in lower case: when no filter is counted as active and the search text has settled, the
-- queries of the dashboard send no filter at all.
pub no_filter_is_sent :
    (lower : Text → Text) (s : Dashboard)
    → lower unset ≡ unset
    → total_active_filters_count s ≡ 0
    → to_query_params lower (some (current_filters s.search_query s)) ≡ []
unfolding to_query_params current_filters total_active_filters_count set_given
no_filter_is_sent lower s l h =
    let bank = one_if_set-none s.bank_filter (omega arith) in
    let account = one_if_set-none s.account_type_filter (omega arith) in
    let flow = one_if_set-none s.flow_filter (omega arith) in
    let dates = one_if_set-none s.date_range_filter (omega arith) in
    let bracket = one_if_set-none s.amount_bracket_filter (omega arith) in
    let mode = one_if_set-none s.payment_mode_filter (omega arith) in
    let category = one_if_set-none s.category_filter (omega arith) in
    let blank : is_empty (trim s.search_query) ≡ true = ground arith in
    rw
      (
        put-unset lower "bank" s.bank_filter [] l bank,
        put-unset lower "account_type" s.account_type_filter [] l account,
        put-unset lower "txn_type" s.flow_filter [] l flow,
        put-unset lower "date_range" s.date_range_filter [] l dates,
        put-unset lower "amount_bracket" s.amount_bracket_filter [] l bracket,
        put-unset lower "payment_mode" s.payment_mode_filter [] l mode,
        put-unset lower "category" s.category_filter [] l category,
        is_empty→eq (trim s.search_query) blank,
      )
      refl
