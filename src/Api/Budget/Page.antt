-- ===== src/Api/Budget/Page.antt =====
-- What `getBudgetTransactions` makes of an answer in which fields may be missing.
use finance_buddy.Prelude.{Bool, List, Option, [], false, length, none, some, ℕ}
use finance_buddy.Store.{given}

pub record Answer (A : Type 0) : Type 0 where
  pub transactions : Option (List A)
  pub total : Option ℕ
  pub limit : Option ℕ
  pub offset : Option ℕ
  pub has_more : Option Bool

pub record TransactionsPage (A : Type 0) : Type 0 where
  pub transactions : List A
  pub total : ℕ
  pub limit : ℕ
  pub offset : ℕ
  pub has_more : Bool

abbrev count_of : {A : Type 0} → Option (List A) → ℕ
count_of none = 0
count_of (some ts) = length ts

unfoldable pub transactions_page : {A : Type 0} → Answer A → TransactionsPage A
transactions_page a = record {
  transactions = given a.transactions [];
  total = given a.total (count_of a.transactions);
  limit = given a.limit 0;
  offset = given a.offset 0;
  has_more = given a.has_more false;
}
