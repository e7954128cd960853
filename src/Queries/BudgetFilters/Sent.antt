-- ===== src/Queries/BudgetFilters/Sent.antt =====
-- What `toQueryParams` sends for each filter.
use finance_buddy.Api.Request.{Value, Params, text}
use finance_buddy.Prelude.{
  All, List, Option, String, Text, [], arith, codes, if◌then◌else◌, is_empty, lookup, lookup-insert,
  none, refl, some, text_eq, ◌==◌, ◌||◌, ◌∷◌, ◌≡◌,
}
use finance_buddy.Queries.BudgetFilters.{BudgetFilters, trimmed, put, set_given, to_query_params}

-- A filter that is neither blank nor "all".
abbrev pub selected : (Text → Text) → Option Text → Option Value
selected lower none = none
selected lower (some v) =
    if is_empty v || text_eq (lower v) (codes "all") then none else some (text v)

abbrev pub nonempty : Option Text → Option Value
nonempty none = none
nonempty (some v) = if is_empty v then none else some (text v)

-- What each parameter should be.
abbrev pub wanted : (Text → Text) → BudgetFilters → List (String × Option Value)
wanted lower f =
    ("bank", selected lower f.bank)
    ∷ ("account_type", selected lower f.account_type)
    ∷ ("txn_type", selected lower f.txn_type)
    ∷ ("date_range", selected lower f.date_range)
    ∷ ("amount_bracket", selected lower f.amount_bracket)
    ∷ ("payment_mode", selected lower f.payment_mode)
    ∷ ("category", selected lower f.category)
    ∷ ("flow", selected lower f.flow)
    ∷ ("from_date", nonempty f.from_date)
    ∷ ("to_date", nonempty f.to_date)
    ∷ ("search", nonempty (trimmed f.search))
    ∷ []

abbrev or_before : Option Value → Option Value → Option Value
or_before none before = before
or_before (some v) before = some v

lookup-put :
    (lower : Text → Text) (j k : String) (v : Option Text) (d : Params)
    → lookup j (put lower k v d)
      ≡ (if k == j then or_before (selected lower v) (lookup j d) else lookup j d)
unfolding put
lookup-put lower j k none d = ground arith
lookup-put lower j k (some []) d = ground arith
lookup-put lower j k (some (c ∷ v)) d = ground (arith, lookup-insert k j (text (c ∷ v)) d)

lookup-set_given :
    (j k : String) (v : Option Text) (d : Params)
    → lookup j (set_given k v d)
      ≡ (if k == j then or_before (nonempty v) (lookup j d) else lookup j d)
unfolding set_given
lookup-set_given j k none d = ground arith
lookup-set_given j k (some []) d = ground arith
lookup-set_given j k (some (c ∷ v)) d = ground (arith, lookup-insert k j (text (c ∷ v)) d)

or_before-none : (o : Option Value) → or_before o none ≡ o
or_before-none none = refl
or_before-none (some v) = refl

-- For any filters, each of the eleven parameters is the filter's value, and missing if the filter
-- is blank; of the eight that are chosen from a list also if it is "all" in lower case; the search
-- text is trimmed.
pub lookup-to_query_params :
    (lower : Text → Text) (f : BudgetFilters)
    → All (λ entry. lookup entry.0 (to_query_params lower (some f)) ≡ entry.1) (wanted lower f)
unfolding to_query_params lookup
lookup-to_query_params lower f = (
  simp (lookup-set_given, lookup-put) (or_before-none (selected lower f.bank)),
  (
    simp (lookup-set_given, lookup-put) (or_before-none (selected lower f.account_type)),
    (
      simp (lookup-set_given, lookup-put) (or_before-none (selected lower f.txn_type)),
      (
        simp (lookup-set_given, lookup-put) (or_before-none (selected lower f.date_range)),
        (
          simp (lookup-set_given, lookup-put) (or_before-none (selected lower f.amount_bracket)),
          (
            simp (lookup-set_given, lookup-put) (or_before-none (selected lower f.payment_mode)),
            (
              simp (lookup-set_given, lookup-put) (or_before-none (selected lower f.category)),
              (
                simp (lookup-set_given, lookup-put) (or_before-none (selected lower f.flow)),
                (
                  simp (lookup-set_given, lookup-put) (or_before-none (nonempty f.from_date)),
                  (
                    simp (lookup-set_given, lookup-put) (or_before-none (nonempty f.to_date)),
                    (
                      simp (lookup-set_given, lookup-put)
                          (or_before-none (nonempty (trimmed f.search))),
                      tt,
                    ),
                  ),
                ),
              ),
            ),
          ),
        ),
      ),
    ),
  ),
)
