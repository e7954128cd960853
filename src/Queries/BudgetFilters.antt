-- ===== src/Queries/BudgetFilters.antt =====
-- The filters of the budget dashboard as query parameters, and what the hooks of useBudget.ts make of
-- an error. `lower` is `toLowerCase`.
pub mod Sent
pub mod Errors
use finance_buddy.Api.Request.{Params, text}
use finance_buddy.Prelude.{
  Bool, Option, String, Text, [], codes, if◌then◌else◌, insert, is_empty, is_number, ltb, none, not,
  or_else, some, text_eq, trim, ℕ, ◌&&◌, ◌∷◌,
}

-- A field that is left out is `none`.
pub record BudgetFilters : Type 0 where
  pub bank : Option Text
  pub account_type : Option Text
  pub txn_type : Option Text
  pub date_range : Option Text
  pub from_date : Option Text
  pub to_date : Option Text
  pub amount_bracket : Option Text
  pub payment_mode : Option Text
  pub category : Option Text
  pub search : Option Text
  pub flow : Option Text

-- `if (value) params[key] = value`
unfoldable pub set_given : String → Option Text → Params → Params
unfolding insert
set_given key none params = params
set_given key (some []) params = params
set_given key (some (c ∷ v)) params = insert key (text (c ∷ v)) params

-- The local function `put`.
unfoldable pub put : (Text → Text) → String → Option Text → Params → Params
unfolding insert
put lower key none params = params
put lower key (some []) params = params
put lower key (some (c ∷ v)) params =
    if text_eq (lower (c ∷ v)) (codes "all") then params else insert key (text (c ∷ v)) params

abbrev pub trimmed : Option Text → Option Text
unfolding trim
trimmed none = none
trimmed (some t) = some (trim t)

unfoldable pub to_query_params : (Text → Text) → Option BudgetFilters → Params
unfolding put set_given insert trim
to_query_params lower none = []
to_query_params lower (some f) =
    let params = put lower "bank" f.bank [] in
    let params = put lower "account_type" f.account_type params in
    let params = put lower "txn_type" f.txn_type params in
    let params = put lower "date_range" f.date_range params in
    let params = put lower "amount_bracket" f.amount_bracket params in
    let params = put lower "payment_mode" f.payment_mode params in
    let params = put lower "category" f.category params in
    let params = put lower "flow" f.flow params in
    let params = set_given "from_date" f.from_date params in
    let params = set_given "to_date" f.to_date params in
    set_given "search" (trimmed f.search) params

-- The fields of an error that the hooks read; `detail` is `none` unless it is a string.
pub record QueryError : Type 0 where
  pub status : Option ℕ
  pub detail : Option Text
  pub message : Option Text

unfoldable pub budget_error_detail : QueryError → Text → Text
unfolding trim
budget_error_detail e fallback = elim e.detail [
  | none ↦ or_else e.message fallback
  | some d ↦ if is_empty (trim d) then or_else e.message fallback else d
]

-- `retry` of the analytics queries, and `notFoundAware`.
unfoldable pub retry : ℕ → QueryError → Bool
retry count e = not (is_number e.status 404) && ltb count 1

-- `useResetSessionOnMissing`: the session on show after its effect.
unfoldable pub reset_session_on_missing : QueryError → Text → Text
reset_session_on_missing e session_id =
    if is_number e.status 404 && not (text_eq session_id (codes "overall"))
    then codes "overall"
    else session_id
