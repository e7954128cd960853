-- ===== src/Budget/Dashboard.antt =====
-- The state of BudgetDashboard.tsx that its filters, uploads and deletions work on. A function that
-- awaits the server is two: what runs before, and what runs with the answer.
pub mod Reset
pub mod Uploads
use finance_buddy.Api.Request.{decimal}
use finance_buddy.Prelude.{
  Bool, List, Option, Text, [], codes, if◌then◌else◌, inl, inr, is_empty, is_none, is_number, ltb,
  map, nat_eq, none, some, text_eq, trim, ℕ, ◌++◌, ◌+◌, ◌||◌, ◌∷◌, ◌⊎◌,
}
use finance_buddy.Queries.BudgetFilters.{BudgetFilters, budget_error_detail, QueryError}
use finance_buddy.Store.{given}

pub record Dashboard : Type 0 where
  pub session_id : Text
  pub bank_filter : Text
  pub account_type_filter : Text
  pub flow_filter : Text
  pub date_range_filter : Text
  pub amount_bracket_filter : Text
  pub payment_mode_filter : Text
  pub category_filter : Text
  pub search_query : Text
  pub card_category_drilldown : Text
  pub category_flow_tab : Text
  pub category_nature_filter : Text
  pub category_search : Text
  pub upload_notice : Option Text
  pub action_error : Option Text

-- The fields of the server's answer to an upload; the reasons in the order of the object.
pub record UploadResult : Type 0 where
  pub parsed : Option ℕ
  pub skipped : Option ℕ
  pub reasons : List (Text × ℕ)
  pub truncated : Bool

abbrev pub unset : Text
unset = codes "all"

abbrev pub overall : Text
overall = codes "overall"

-- One for a filter that is set.
abbrev pub one_if_set : Text → ℕ
one_if_set f = if text_eq f unset then 0 else 1

unfoldable pub advanced_filters_count : Dashboard → ℕ
advanced_filters_count s =
    one_if_set s.flow_filter
    + one_if_set s.amount_bracket_filter
    + one_if_set s.payment_mode_filter
    + one_if_set s.category_filter
    + one_if_set s.account_type_filter

unfoldable pub total_active_filters_count : Dashboard → ℕ
unfolding trim
total_active_filters_count s =
    one_if_set s.bank_filter
    + one_if_set s.account_type_filter
    + one_if_set s.flow_filter
    + one_if_set s.date_range_filter
    + one_if_set s.amount_bracket_filter
    + one_if_set s.payment_mode_filter
    + one_if_set s.category_filter
    + (if is_empty (trim s.search_query) then 0 else 1)

unfoldable pub reset_all_filters : Dashboard → Dashboard
reset_all_filters s = record s {
  bank_filter = unset;
  account_type_filter = unset;
  flow_filter = unset;
  date_range_filter = unset;
  amount_bracket_filter = unset;
  payment_mode_filter = unset;
  category_filter = unset;
  card_category_drilldown = unset;
  search_query = [];
  category_nature_filter = unset;
  category_search = [];
}

-- The search text has gone through `useDebounce`, and is an argument.
unfoldable pub current_filters : Text → Dashboard → BudgetFilters
current_filters debounced_search s = record {
  bank = some s.bank_filter;
  account_type = some s.account_type_filter;
  txn_type = some s.flow_filter;
  date_range = some s.date_range_filter;
  from_date = none;
  to_date = none;
  amount_bracket = some s.amount_bracket_filter;
  payment_mode = some s.payment_mode_filter;
  category = some s.category_filter;
  search = some debounced_search;
  flow = none;
}

unfoldable pub effective_category : Dashboard → Text
effective_category s =
    if text_eq s.card_category_drilldown unset then s.category_filter else s.card_category_drilldown

unfoldable pub category_filters : Text → Dashboard → BudgetFilters
unfolding current_filters effective_category
category_filters debounced_search s = record (current_filters debounced_search s) {
  category = some (effective_category s);
  txn_type = some (if text_eq s.flow_filter unset then s.category_flow_tab else s.flow_filter);
}

-- `parts.join(', ')`
abbrev pub comma_joined : List Text → Text
comma_joined [] = []
comma_joined (t ∷ []) = t
comma_joined (t ∷ (u ∷ ts)) = t ++ codes ", " ++ comma_joined (u ∷ ts)

abbrev pub reason_text : Text × ℕ → Text
unfolding decimal
reason_text (reason, count) = reason ++ codes ": " ++ decimal count

-- What the notice says of the rows that were skipped.
unfoldable pub skipped_text : ℕ → List (Text × ℕ) → Text
unfolding decimal
skipped_text skipped reasons =
    let shown = comma_joined (map reason_text reasons) in
    decimal skipped
    ++ codes " row"
    ++ (if nat_eq skipped 1 then [] else codes "s")
    ++ codes " skipped"
    ++ (if is_empty shown then [] else codes " (" ++ shown ++ codes ")")

unfoldable pub notice_of : UploadResult → Option Text
unfolding skipped_text decimal
notice_of r =
    let skipped = given r.skipped 0 in
    if ltb 0 skipped || r.truncated
    then some (
        comma_joined (
          (decimal (given r.parsed 0) ++ codes " transactions imported")
            ∷ (if ltb 0 skipped then skipped_text skipped r.reasons ∷ [] else [])
          ++ (if r.truncated
              then codes "the file exceeded the import limit, so only the first rows were read" ∷ []
              else []))
        ++ codes ".")
    else none

-- Before the await of handleModalUpload.
unfoldable pub upload_start : Dashboard → Dashboard
upload_start s = record s { action_error = none; upload_notice = none }

-- After it: the state, and what the dialog is told.
unfoldable pub upload_resume : QueryError ⊎ UploadResult → Dashboard → Option Text × Dashboard
unfolding reset_all_filters notice_of budget_error_detail
upload_resume (inr r) s = (
  none,
  record (reset_all_filters s) {
    session_id = overall;
    upload_notice = if is_none (notice_of r) then s.upload_notice else notice_of r;
  },
)
upload_resume (inl e) s =
    let detail = budget_error_detail e (codes "Upload failed.") in
    (some detail, record s { action_error = some detail })

unfoldable pub delete_start : Dashboard → Dashboard
delete_start s = record s { action_error = none }

-- After the await of handleDeleteSession, with the session on show when it was called.
unfoldable pub delete_resume : Text → Text → Option QueryError → Dashboard → Dashboard
unfolding budget_error_detail
delete_resume shown sid none s = if text_eq shown sid then record s { session_id = overall } else s
delete_resume shown sid (some e) s = record s {
  action_error = some (budget_error_detail e (codes "Delete failed."));
}

-- `realError`
abbrev pub real_error : Option QueryError → Option QueryError
real_error none = none
real_error (some e) = if is_number e.status 404 then none else some e

abbrev pub first_error : Option QueryError → Option QueryError → Option QueryError
first_error none other = other
first_error (some e) other = some e

unfoldable pub load_error_message :
    Option QueryError → Option QueryError → Option QueryError → Option Text
unfolding budget_error_detail
load_error_message overview transactions categories =
    elim (first_error (real_error overview)
      (first_error (real_error transactions) (real_error categories))) [
        | none ↦ none
        | some e ↦
            some
              (budget_error_detail e (codes "Could not load your budget data. Please try again."))
      ]
