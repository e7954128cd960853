-- ===== src/Budget/Transactions.antt =====
-- TransactionsTab.tsx: the filters, the selection, the pages and the edits of the list of
-- transactions; `flow` is what the source calls `type`. An amount is of any type `F`, what is missing of a transaction is `none`, a Set of ids
-- is a list without repetition, in the order in which they were added. `revision` counts the arrays
-- that the parent has passed, so that two of them are the same array iff it is the same.
pub mod Events
pub mod Selection
pub mod Bulk
pub mod Paging
pub mod Totals
use finance_buddy.Prelude.{
  Bool, List, Option, Text, [], any, codes, drop, false, filter, if◌then◌else◌, is_empty, length,
  ltb, map, nat_eq, none, not, or_else, some, take, text_eq, trim, ℕ, ◌&&◌, ◌*◌, ◌++◌, ◌||◌, ◌∷◌,
  includes,
}
use finance_buddy.Store.{given}

pub record Transaction (F : Type 0) : Type 0 where
  pub txn_id : Text
  pub session_id : Text
  pub description : Option Text
  pub category : Option Text
  pub notes : Option Text
  pub amount : Option F
  pub flow : Option Text
  pub source_bank : Option Text
  pub account_type : Option Text

pub record Filters : Type 0 where
  pub bank : Text
  pub flow : Text
  pub account_type : Text
  pub review : Bool
  pub search : Text

pub record Update : Type 0 where
  pub txn_id : Text
  pub session_id : Text
  pub category : Text
  pub notes : Option Text

pub record Tab (F : Type 0) : Type 0 where
  pub transactions : List (Transaction F)
  pub revision : ℕ
  pub selected : List Text
  pub bulk_category : Text
  pub saving : Bool
  pub filters : Filters
  pub editing_id : Option Text
  pub edit_category : Text
  pub edit_notes : Text
  pub page : ℕ
  pub rows_per_page : ℕ

abbrev pub everything : Text
everything = codes "all"

abbrev pub opened : {F : Type 0} → List (Transaction F) → Tab F
opened transactions = record {
  transactions = transactions;
  revision = 0;
  selected = [];
  bulk_category = [];
  saving = false;
  filters = record {
    bank = everything;
    flow = everything;
    account_type = everything;
    review = false;
    search = [];
  };
  editing_id = none;
  edit_category = [];
  edit_notes = [];
  page = 0;
  rows_per_page = 50;
}

abbrev pub has_id : List Text → Text → Bool
has_id ids id = any (text_eq id) ids

-- `set.add(id)`
abbrev pub add_id : List Text → Text → List Text
add_id ids id = if has_id ids id then ids else ids ++ (id ∷ [])

-- `new Set(ids)`, from the ids that are there already.
abbrev pub add_ids : List Text → List Text → List Text
add_ids ids [] = ids
add_ids ids (id ∷ more) = add_ids (add_id ids id) more

abbrev pub ids_of : {F : Type 0} → List (Transaction F) → List Text
ids_of ts = map (λ t. t.txn_id) ts

unfoldable pub unique_account_types : {F : Type 0} → List (Transaction F) → List Text
unique_account_types ts =
    filter (λ t. not (is_empty t))
      (add_ids [] (map (λ t. or_else t.account_type (codes "Savings Account")) ts))

abbrev pub is : Option Text → Text → Bool
is none t = false
is (some s) t = text_eq s t

-- The totals of what is filtered: credits and debits.
abbrev pub add_amount : {F : Type 0} → (F → F → F) → F → F × F → Transaction F → F × F
add_amount plus nothing (credits, debits) t =
    if is t.flow (codes "credit")
    then (plus credits (given t.amount nothing), debits)
    else if is t.flow (codes "debit")
    then (credits, plus debits (given t.amount nothing))
    else (credits, debits)

unfoldable pub totals : {F : Type 0} → (F → F → F) → F → F × F → List (Transaction F) → F × F
totals plus nothing sums [] = sums
totals plus nothing sums (t ∷ ts) = totals plus nothing (add_amount plus nothing sums t) ts

module _ {F : Type 0} (lower upper : Text → Text) where
  unfoldable pub matches : Filters → Transaction F → Bool
  unfolding trim
  matches f t =
      let q = lower (trim f.search) in
      (text_eq f.bank everything || text_eq (upper (or_else t.source_bank [])) (upper f.bank))
      && (text_eq f.flow everything || is t.flow f.flow)
      && (text_eq f.account_type everything
          || text_eq (lower (or_else t.account_type (codes "Savings Account")))
              (lower f.account_type))
      && (not f.review || is t.category (codes "Uncategorized"))
      && (is_empty q
          || includes (lower (or_else t.description [])) q
          || includes (lower (or_else t.category [])) q
          || includes (lower (or_else t.notes [])) q)

  unfoldable pub filtered : Tab F → List (Transaction F)
  unfolding matches
  filtered s = filter (matches s.filters) s.transactions

  unfoldable pub visible : Tab F → List (Transaction F)
  unfolding filtered
  visible s = take s.rows_per_page (drop (s.page * s.rows_per_page) (filtered s))

  -- The header's checkbox.
  unfoldable pub all_checked : Tab F → Bool
  unfolding filtered
  all_checked s = ltb 0 (length (filtered s)) && nat_eq (length s.selected) (length (filtered s))

  unfoldable pub some_checked : Tab F → Bool
  unfolding filtered
  some_checked s = ltb 0 (length s.selected) && ltb (length s.selected) (length (filtered s))
