-- ===== src/Budget/Categories.antt =====
-- The category card of BudgetDashboard.tsx: the list, its total and the slices of the donut. An amount
-- is of any type `F`, and not NaN, so that `|| 0` does nothing to it. `sort` is Array.prototype.sort, whose argument says which of two comes later.
pub mod Sorted
use finance_buddy.Api.Request.{decimal}
use finance_buddy.Prelude.{
  Bool, List, Option, Text, [], codes, drop, filter, if◌then◌else◌, includes, is_empty, is_none,
  leb, length, map, none, not, or_else, some, take, text_eq, trim, ℕ, ◌&&◌, ◌++◌, ◌-◌, ◌||◌, ◌∷◌,
}
use finance_buddy.Store.{given}

pub record CategorySlice (F : Type 0) : Type 0 where
  pub category : Option Text
  pub amount : F
  pub count : Option F
  pub nature : Option Text

-- What the donut draws: a category, or the rest with its name and its amount.
pub data Slice (F : Type 0) : Type 0 where
  own : CategorySlice F → Slice F
  other : Text → F → Slice F

pub data SortBy : Type 0 where
  by_amount by_count by_name : SortBy

pub data Sign : Type 0 where
  negative same positive : Sign

-- What JavaScript does with two amounts or two names: the sign of a difference, addition, and
-- localeCompare.
pub record Amounts (F : Type 0) : Type 0 where
  pub minus_sign : F → F → Sign
  pub plus : F → F → F
  pub nothing : F
  pub locale_compare : Text → Text → Sign

-- The number of entries of CATEGORY_COLORS.
abbrev pub donut_slices : ℕ
donut_slices = 10

module _ {F : Type 0} (amounts : Amounts F) where
  -- The comparison that is handed to `sort`.
  unfoldable pub comparison : SortBy → CategorySlice F → CategorySlice F → Sign
  comparison by_amount a b = amounts.minus_sign b.amount a.amount
  comparison by_count a b =
      amounts.minus_sign (given b.count amounts.nothing) (given a.count amounts.nothing)
  comparison by_name a b = amounts.locale_compare (or_else a.category []) (or_else b.category [])

module _ {F : Type 0} (lower : Text → Text) where
  unfoldable pub is_listed : Text → Text → CategorySlice F → Bool
  unfolding trim
  is_listed nature search c =
      (text_eq nature (codes "all")
        || text_eq (lower (or_else c.nature (codes "other"))) (lower nature))
      && (is_empty (trim search) || includes (lower (or_else c.category [])) (lower search))

module _ {F : Type 0} (amounts : Amounts F) (lower : Text → Text) where
  unfoldable pub processed_categories :
      ((CategorySlice F → CategorySlice F → Sign) → List (CategorySlice F) → List (CategorySlice F))
      → Text
      → Text
      → SortBy
      → List (CategorySlice F)
      → List (CategorySlice F)
  unfolding comparison is_listed
  processed_categories sort nature search by categories =
      sort (comparison amounts by) (filter (is_listed lower nature search) categories)

module _ {F : Type 0} (amounts : Amounts F) where
  -- `list.reduce((sum, c) => sum + (c.amount || 0), sum)`
  abbrev pub amount_from : F → List (CategorySlice F) → F
  amount_from sum [] = sum
  amount_from sum (c ∷ cs) = amount_from (amounts.plus sum c.amount) cs

  abbrev pub total_amount : List (CategorySlice F) → F
  total_amount cs = amount_from amounts.nothing cs

  unfoldable pub donut_data : List (CategorySlice F) → List (Slice F)
  unfolding decimal
  donut_data processed =
      if leb (length processed) donut_slices
      then map own processed
      else let tail = drop (donut_slices - 1) processed in
        map own (take (donut_slices - 1) processed)
        ++ (other (codes "Other (" ++ decimal (length tail) ++ codes ")") (total_amount tail) ∷ [])

-- categoryByName: of two categories of a name, the later one.
unfoldable pub category_by_name :
    {F : Type 0} → (Text → Text) → List (CategorySlice F) → Text → Option (CategorySlice F)
category_by_name lower [] name = none
category_by_name lower (c ∷ cs) name =
    let later = category_by_name lower cs name in
    if not (is_none later)
    then later
    else if text_eq (lower (or_else c.category [])) name
    then some c
    else none
