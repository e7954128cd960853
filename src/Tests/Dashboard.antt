-- ===== src/Tests/Dashboard.antt =====
-- The category card and the state of BudgetDashboard.tsx.
use mathlib.Core.List.Permᴰ
use finance_buddy.Api.Request.{decimal}
use finance_buddy.Budget.Categories.{
  Sign, Amounts, CategorySlice, SortBy, donut_data, negative, same, processed_categories, by_name,
  positive, comparison, is_listed, by_amount, other, by_count, own,
}
use finance_buddy.Budget.Categories.Sorted.{IsDrawn, donut_data-processed_categories}
use finance_buddy.Budget.Dashboard.{
  Dashboard, total_active_filters_count, UploadResult, notice_of, delete_resume, upload_resume,
  unset, skipped_text, load_error_message, upload_start, current_filters, overall,
}
use finance_buddy.Budget.Dashboard.Reset.{no_filter_is_sent}
use finance_buddy.Budget.Dashboard.Uploads.{upload_outcome}
use finance_buddy.Prelude.{
  Bool, Bool-cases, List, String, Text, [], codes, false, filter, get_elem?, if◌then◌else◌, inl,
  inr, is_none, ltb, nat_eq, none, not, refl, some, take, trim, true, ℕ, ◌+◌, ◌||◌, ◌∷◌, ◌≡◌, ◌++◌,
}
use finance_buddy.Queries.BudgetFilters.{QueryError, to_query_params, budget_error_detail}
use finance_buddy.Store.{given}
use mathlib.Core.List.{Permᴰ}
use mathlib.Core.List.Permᴰ.{nil, cons, swap, trans}

abbrev lower_case : Text → Text
lower_case t = t

abbrev sign : ℕ → ℕ → Sign
sign a b = if ltb a b then negative else if nat_eq a b then same else positive

abbrev by_first : Text → Text → Sign
by_first [] t = same
by_first (c ∷ s) [] = same
by_first (c ∷ s) (d ∷ t) = sign c d

abbrev rupees : Amounts ℕ
rupees = record { minus_sign = sign; plus = ◌+◌; nothing = 0; locale_compare = by_first }

abbrev is_later : Sign → Bool
is_later positive = true
is_later negative = false
is_later same = false

module _ {A : Type 0} where
  abbrev put_in : (A → A → Sign) → A → List A → List A
  put_in cmp a [] = a ∷ []
  put_in cmp a (b ∷ bs) =
      let rest = put_in cmp a bs in if is_later (cmp a b) then b ∷ rest else a ∷ (b ∷ bs)

  -- A sort that is stable, as the language asks.
  abbrev sort_by : (A → A → Sign) → List A → List A
  sort_by cmp [] = []
  sort_by cmp (a ∷ bs) = put_in cmp a (sort_by cmp bs)

  put_in-Perm : (cmp : A → A → Sign) (a : A) (bs : List A) → Permᴰ (put_in cmp a bs) (a ∷ bs)
  put_in-Perm cmp a [] = cons refl nil
  put_in-Perm cmp a (b ∷ bs) = elim (Bool-cases (is_later (cmp a b))) [
    | inl k ↦ rw k (trans (cons refl (put_in-Perm cmp a bs)) (swap refl refl))
    | inr k ↦ rw k (Permᴰ.refl (a ∷ (b ∷ bs)))
  ]

  sort_by-Perm : (cmp : A → A → Sign) (bs : List A) → Permᴰ (sort_by cmp bs) bs
  sort_by-Perm cmp [] = nil
  sort_by-Perm cmp (a ∷ bs) =
      trans (put_in-Perm cmp a (sort_by cmp bs)) (cons refl (sort_by-Perm cmp bs))

abbrev spent : String → ℕ → CategorySlice ℕ
spent name amount = record {
  category = some (codes name);
  amount = amount;
  count = none;
  nature = some (codes "needs");
}

abbrev twelve : List (CategorySlice ℕ)
twelve =
    spent "l" 1
    ∷ spent "k" 2
    ∷ spent "j" 3
    ∷ spent "i" 4
    ∷ spent "h" 5
    ∷ spent "g" 6
    ∷ spent "f" 7
    ∷ spent "e" 8
    ∷ spent "d" 9
    ∷ spent "c" 10
    ∷ spent "b" 11
    ∷ spent "a" 12
    ∷ []

abbrev shown_by : SortBy → List (CategorySlice ℕ)
shown_by by = processed_categories rupees lower_case sort_by (codes "needs") [] by twelve

-- The rest is what comes last in the chosen order, whatever it amounts to.
donut_tests :
    (get_elem? (donut_data rupees (shown_by by_amount)) 9 ≡ some (other (codes "Other (3)") 6))
    × (get_elem? (donut_data rupees (shown_by by_name)) 9 ≡ some (other (codes "Other (3)") 6))
    × (get_elem? (donut_data rupees (shown_by by_count)) 9 ≡ some (other (codes "Other (3)") 33))
    × (donut_data rupees (take 2 twelve) ≡ own (spent "l" 1) ∷ own (spent "k" 2) ∷ [])
unfolding donut_data processed_categories comparison is_listed trim decimal
donut_tests = (refl, refl, refl, refl)

donut_data-processed_categories_example :
    (shown rest : List (CategorySlice ℕ)) × (shown ++ rest
      ≡ sort_by
          (comparison rupees by_name)
          (filter (is_listed lower_case (codes "needs") []) twelve))
    × Permᴰ (shown ++ rest) (filter (is_listed lower_case (codes "needs") []) twelve)
    × IsDrawn rupees shown rest (donut_data rupees (shown_by by_name))
donut_data-processed_categories_example =
    donut_data-processed_categories rupees lower_case sort_by sort_by-Perm (codes "needs") []
      by_name twelve

abbrev dashboard : Dashboard
dashboard = record {
  session_id = codes "s1";
  bank_filter = unset;
  account_type_filter = unset;
  flow_filter = unset;
  date_range_filter = unset;
  amount_bracket_filter = unset;
  payment_mode_filter = unset;
  category_filter = unset;
  search_query = codes "  ";
  card_category_drilldown = codes "Food";
  category_flow_tab = codes "debit";
  category_nature_filter = unset;
  category_search = [];
  upload_notice = none;
  action_error = none;
}

no_filter_is_sent_test :
    to_query_params lower_case (some (current_filters dashboard.search_query dashboard)) ≡ []
unfolding total_active_filters_count trim
no_filter_is_sent_test = no_filter_is_sent lower_case dashboard refl refl

abbrev partly_read : UploadResult
partly_read = record {
  parsed = some 40;
  skipped = some 2;
  reasons = (codes "no date", 2) ∷ [];
  truncated = true;
}

abbrev too_large : QueryError
too_large = record { status = some 422; detail = some (codes "Too large."); message = none }

notice_test :
    notice_of partly_read
    ≡ some (
        codes
          "40 transactions imported, 2 rows skipped (no date: 2), the file exceeded the import limit, so only the first rows were read.")
unfolding notice_of skipped_text decimal
notice_test = refl

delete_tests :
    ((delete_resume (codes "s1") (codes "s1") none dashboard).session_id ≡ overall)
    × ((delete_resume (codes "s1") (codes "s2") none dashboard).session_id ≡ codes "s1")
    × (load_error_message (some (record too_large { status = some 404 })) none (some too_large)
        ≡ some (codes "Too large."))
unfolding delete_resume load_error_message budget_error_detail trim
delete_tests = (refl, refl, refl)

upload_outcome_example :
    let done = (upload_resume (inr partly_read) (upload_start dashboard)).1 in
    let failed = upload_resume (inl too_large) (upload_start dashboard) in
    (done.session_id ≡ overall)
    × (total_active_filters_count done ≡ 0)
    × (done.action_error ≡ none)
    × (is_none done.upload_notice
        ≡ not (ltb 0 (given partly_read.skipped 0) || partly_read.truncated))
    × (failed.1 ≡ record dashboard { action_error = failed.0; upload_notice = none })
    × (is_none failed.0 ≡ false)
upload_outcome_example = upload_outcome dashboard partly_read too_large
