-- ===== src/Budget/Transactions/Events.antt =====
-- The handlers of TransactionsTab.tsx, each followed by the two effects that the component declares,
-- and the states that are reached by them. `page_turned` and `row_toggled` come from controls on the
-- screen, which offer pages in range and the rows of the page.
use finance_buddy.Budget.Transactions.{
  Tab, Transaction, filtered, Filters, has_id, Update, add_ids, ids_of, opened, add_id, visible,
}
use finance_buddy.Prelude.{
  Bool, In, List, Option, Text, [], false, filter, if◌then◌else◌, is_empty, is_none, leb, length,
  map, nat_eq, none, not, or_else, some, text_eq, true, ℕ, ◌&&◌, ◌*◌, ◌+◌, ◌<◌, ◌||◌,
}

abbrev pub same_filters : Filters → Filters → Bool
same_filters f g =
    text_eq f.bank g.bank
    && text_eq f.flow g.flow
    && text_eq f.account_type g.account_type
    && (if f.review then g.review else not g.review)
    && text_eq f.search g.search

abbrev pub remove_id : List Text → Text → List Text
remove_id ids id = filter (λ j. not (text_eq id j)) ids

pub data Event (F : Type 0) : Type 0 where
  received : List (Transaction F) → Event F
  filters_set : Filters → Event F
  all_toggled : Bool → Event F
  row_toggled : Text → Event F
  category_typed : Text → Event F
  bulk_applied : Event F
  bulk_answered : Bool → Event F
  edit_started : Transaction F → Event F
  edit_cancelled : Event F
  edit_typed : Text → Text → Event F
  edit_saved : Event F
  edit_answered : Bool → Event F
  page_turned : ℕ → Event F
  rows_set : ℕ → Event F

module _ {F : Type 0} where
  -- Whether React keeps the memoised list.
  abbrev pub same_list : Tab F → Tab F → Bool
  same_list old new = nat_eq old.revision new.revision && same_filters old.filters new.filters

  unfoldable pub handle_select_row : Text → Tab F → Tab F
  handle_select_row id s = record s {
    selected = if has_id s.selected id then remove_id s.selected id else add_id s.selected id;
  }

  abbrev pub update_of : Text → Transaction F → Update
  update_of category t = record {
    txn_id = t.txn_id;
    session_id = t.session_id;
    category = category;
    notes = t.notes;
  }

  -- What follows the `await` of handleBulkUpdate.
  unfoldable pub bulk_settled : Bool → Tab F → Tab F
  bulk_settled true s = record s { selected = []; bulk_category = []; saving = false }
  bulk_settled false s = record s { saving = false }

  unfoldable pub start_edit : Transaction F → Tab F → Tab F
  start_edit t s = record s {
    editing_id = some t.txn_id;
    edit_category = or_else t.category [];
    edit_notes = or_else t.notes [];
  }

  unfoldable pub edit_settled : Bool → Tab F → Tab F
  edit_settled true s = record s { editing_id = none; saving = false }
  edit_settled false s = record s { saving = false }

  -- The request of saveEdit.
  unfoldable pub save_edit : Transaction F → Tab F → Update
  save_edit t s = record {
    txn_id = t.txn_id;
    session_id = t.session_id;
    category = s.edit_category;
    notes = some s.edit_notes;
  }

module _ {F : Type 0} (lower upper : Text → Text) where
  unfoldable pub handle_select_all : Bool → Tab F → Tab F
  unfolding filtered
  handle_select_all checked s = record s {
    selected = if checked then add_ids [] (ids_of (filtered lower upper s)) else [];
  }

  -- The request of handleBulkUpdate, unless it returns before.
  unfoldable pub bulk_request : Tab F → Option (List Update)
  unfolding filtered
  bulk_request s =
      if is_empty s.bulk_category || nat_eq (length s.selected) 0
      then none
      else some (
          map (update_of s.bulk_category)
            (filter (λ t. has_id s.selected t.txn_id) (filtered lower upper s)))

  unfoldable pub bulk_start : Tab F → Tab F
  unfolding bulk_request
  bulk_start s = record s { saving = s.saving || not (is_none (bulk_request s)) }

  unfoldable pub handler : Event F → Tab F → Tab F
  unfolding handle_select_row bulk_settled start_edit edit_settled handle_select_all bulk_start
  handler (received ts) s = record s { transactions = ts; revision = s.revision + 1 }
  handler (filters_set f) s = record s { filters = f }
  handler (all_toggled checked) s = handle_select_all checked s
  handler (row_toggled id) s = handle_select_row id s
  handler (category_typed t) s = record s { bulk_category = t }
  handler bulk_applied s = bulk_start s
  handler (bulk_answered fine) s = bulk_settled fine s
  handler (edit_started t) s = start_edit t s
  handler edit_cancelled s = record s { editing_id = none }
  handler (edit_typed category notes) s = record s { edit_category = category; edit_notes = notes }
  handler edit_saved s = record s { saving = true }
  handler (edit_answered fine) s = edit_settled fine s
  handler (page_turned page) s = record s { page = page }
  handler (rows_set rows) s = record s { rows_per_page = rows; page = 0 }

  -- The effect on `filteredTransactions`.
  unfoldable pub selection_effect : Tab F → Tab F → Tab F
  selection_effect old new = if same_list old new then new else record new { selected = [] }

  -- The effect on `filteredTransactions.length` and `rowsPerPage`.
  unfoldable pub page_effect : Tab F → Tab F → Tab F
  unfolding filtered
  page_effect old new =
      let count = length (filtered lower upper new) in
      if nat_eq (length (filtered lower upper old)) count
        && nat_eq old.rows_per_page new.rows_per_page
      then new
      else record new { page = if leb count (new.page * new.rows_per_page) then 0 else new.page }

  unfoldable pub step : Event F → Tab F → Tab F
  unfolding handler selection_effect page_effect
  step e s = page_effect s (selection_effect s (handler e s))

  -- What the screen offers.
  abbrev pub IsOffered : Event F → Tab F → Type 0
  IsOffered (row_toggled id) s = In id (ids_of (visible lower upper s))
  IsOffered (page_turned page) s = page * s.rows_per_page < length (filtered lower upper s)
  IsOffered _ s = Unit

  pub data Reached : Tab F → Type 0 where
    begun : (ts : List (Transaction F)) → Reached (opened ts)
    stepped : {s : Tab F} (e : Event F) → Reached s → IsOffered e s → Reached (step e s)
