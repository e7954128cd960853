-- ===== src/Tests/Transactions.antt =====
-- The list of TransactionsTab.tsx, with natural numbers as amounts and texts whose case is not read.
use finance_buddy.Budget.Transactions.{
  Transaction, Tab, Update, ids_of, totals, Filters, filtered, opened, matches, visible,
}
use finance_buddy.Budget.Transactions.Bulk.{bulk_request-sends}
use finance_buddy.Budget.Transactions.Events.{
  step, Reached, category_typed, handler, page_turned, stepped, row_toggled, page_effect, rows_set,
  all_toggled, selection_effect, handle_select_all, start_edit, begun, handle_select_row,
  edit_settled, bulk_request, edit_saved, received, filters_set, edit_started, edit_answered,
}
use finance_buddy.Budget.Transactions.Paging.{visible-shown}
use finance_buddy.Prelude.{
  All, In, List, Text, [], arith, codes, false, inl, is_empty, length, map, none, refl, some, trim,
  true, ℕ, ◌*◌, ◌+◌, ◌<◌, ◌↔◌, ◌∷◌, ◌≡◌, ◌≤◌,
}

abbrev as_is : Text → Text
as_is t = t

abbrev paid : Text → Text → ℕ → Transaction ℕ
paid id category amount = record {
  txn_id = id;
  session_id = codes "s";
  description = some (codes "upi");
  category = some category;
  notes = none;
  amount = some amount;
  flow = some (codes "debit");
  source_bank = none;
  account_type = none;
}

abbrev rent : Transaction ℕ
rent = paid (codes "r") (codes "Rent") 20

abbrev food : Transaction ℕ
food = paid (codes "f") (codes "Uncategorized") 3

abbrev pay : Transaction ℕ
pay = record (paid (codes "p") (codes "Uncategorized") 70) { flow = some (codes "credit") }

abbrev three : List (Transaction ℕ)
three = rent ∷ food ∷ pay ∷ []

abbrev reviewed : Filters
reviewed = record (opened three).filters { review = true }

-- All are selected, one of them not, and a category is typed.
abbrev two_chosen : Tab ℕ
two_chosen = step as_is as_is (category_typed (codes "Fun")) (
    step as_is as_is (row_toggled (codes "r")) (step as_is as_is (all_toggled true) (opened three)))

abbrev fun : Text → Update
fun id = record { txn_id = id; session_id = codes "s"; category = codes "Fun"; notes = none }

two_updates : bulk_request as_is as_is two_chosen ≡ some (fun (codes "f") ∷ fun (codes "p") ∷ [])
unfolding step handler page_effect selection_effect handle_select_all handle_select_row filtered
    matches bulk_request trim
two_updates = refl

-- A filter drops the selection, even if what was selected passes it.
filter_drops_selection :
    let s = step as_is as_is (filters_set reviewed) two_chosen in
    (s.selected ≡ [])
    × (filtered as_is as_is s ≡ food ∷ pay ∷ [])
    × (bulk_request as_is as_is s ≡ none)
unfolding step handler page_effect selection_effect handle_select_all handle_select_row filtered
    matches bulk_request trim
filter_drops_selection = (refl, refl, refl)

-- A row whose edit begins while another is being saved is closed by the answer.
answer_closes_other_edit :
    let s = step as_is as_is edit_saved (step as_is as_is (edit_started rent) (opened three)) in
    let s' = step as_is as_is (edit_started food) s in
    (s'.editing_id ≡ some (codes "f"))
    × ((step as_is as_is (edit_answered true) s').editing_id ≡ none)
unfolding step handler page_effect selection_effect start_edit edit_settled filtered matches trim
answer_closes_other_edit = (refl, refl)

-- The second page of two goes when one row is left.
abbrev last_page : Tab ℕ
last_page = step as_is as_is (page_turned 1) (step as_is as_is (rows_set 2) (opened three))

page_tests :
    (visible as_is as_is last_page ≡ pay ∷ [])
    × ((step as_is as_is (received (food ∷ [])) last_page).page ≡ 0)
    × (totals (◌+◌) 0 (0, 0) three ≡ (70, 23))
unfolding step handler page_effect selection_effect filtered matches visible totals trim
page_tests = (refl, refl, refl)

row_on_screen :
    In
      (codes "r")
      (ids_of (visible as_is as_is (step as_is as_is (all_toggled true) (opened three))))
unfolding step handler page_effect selection_effect handle_select_all filtered matches visible trim
row_on_screen = inl refl

two_chosen-Reached : Reached as_is as_is two_chosen
two_chosen-Reached =
    stepped (category_typed (codes "Fun"))
      (stepped (row_toggled (codes "r")) (stepped (all_toggled true) (begun three) tt)
        row_on_screen)
      tt

bulk_request-sends_example :
    ((id : Text)
      → In id (map (λ (u : Update). u.txn_id) (fun (codes "f") ∷ fun (codes "p") ∷ []))
        ↔ In id two_chosen.selected)
    × All
        (λ (u : Update). u.category ≡ two_chosen.bulk_category)
        (fun (codes "f") ∷ fun (codes "p") ∷ [])
    × (is_empty two_chosen.bulk_category ≡ false)
bulk_request-sends_example =
    bulk_request-sends as_is as_is two_chosen (fun (codes "f") ∷ fun (codes "p") ∷ [])
      two_chosen-Reached two_updates

second_page_is_offered :
    1 * 2 < length (filtered as_is as_is (step as_is as_is (rows_set 2) (opened three)))
unfolding step handler page_effect selection_effect filtered matches trim
second_page_is_offered = omega arith

last_page-Reached : Reached as_is as_is last_page
unfolding step handler page_effect selection_effect filtered matches trim
last_page-Reached =
    stepped (page_turned 1) (stepped (rows_set 2) (begun three) tt) second_page_is_offered

visible-shown_example :
    (0 < length (visible as_is as_is last_page) ↔ 0 < length (filtered as_is as_is last_page))
    × (length (visible as_is as_is last_page) ≤ last_page.rows_per_page)
unfolding step handler page_effect selection_effect filtered matches trim
visible-shown_example = visible-shown as_is as_is last_page last_page-Reached (omega arith)
