-- ===== src/Budget/Categories/Sorted.antt =====
-- The donut of a list that is filtered and sorted.
use finance_buddy.Api.Request.{decimal}
use finance_buddy.Budget.Categories.{
  comparison, Amounts, processed_categories, CategorySlice, Slice, Sign, SortBy, donut_data, own,
  other, total_amount, is_listed, donut_slices,
}
use finance_buddy.Prelude.{
  Bool-cases, List, Text, [], append-nil, arith, codes, drop, filter, inl, inr, leb, length,
  length-drop, length-take, map, refl, subst, sym, take, take-append-drop, ◌++◌, ◌-◌, ◌∷◌, ◌≡◌, ◌≤◌,
  ◌⊎◌,
}
use mathlib.Core.List.{Permᴰ}

module _ {F : Type 0} (amounts : Amounts F) where
  -- A slice for each of `shown`, and if `rest` is not empty, one for all of it together: it comes
  -- last, its name has the number of them, and its amount is their amounts added in their order.
  abbrev pub IsDrawn : List (CategorySlice F) → List (CategorySlice F) → List (Slice F) → Type 0
  IsDrawn shown rest slices =
      ((length shown ≤ donut_slices) × (rest ≡ []) × (slices ≡ map own shown))
      ⊎ ((length shown ≡ donut_slices - 1)
          × (2 ≤ length rest)
          × (slices
              ≡ map own shown
                ++ (other (codes "Other (" ++ decimal (length rest) ++ codes ")")
                      (total_amount amounts rest)
                    ∷ [])))

  drawn :
      (cs : List (CategorySlice F))
      → (shown rest : List (CategorySlice F)) × (shown ++ rest ≡ cs)
        × IsDrawn shown rest (donut_data amounts cs)
  unfolding donut_data
  drawn cs = elim (Bool-cases (leb (length cs) 10)) [
    | inl k ↦ (cs, [], append-nil cs, rw k (inl (ground arith, refl, refl)))
    | inr k ↦ (
      take 9 cs,
      drop 9 cs,
      take-append-drop 9 cs,
      rw k (inr (ground (arith, length-take 9 cs), ground (arith, length-drop 9 cs), refl)),
    )
  ]

-- If sorting only moves the elements of a list: in each of the three orders, the categories that pass
-- both filters are, in that order, those that have a slice of their own and then the rest, and no
-- category is in both or in neither. Up to ten have a slice of their own and there is no rest; if
-- there are more, the first nine have one, and one slice more stands for all the rest.
pub donut_data-processed_categories :
    {F : Type 0} (amounts : Amounts F) (lower : Text → Text)
    (sort : (CategorySlice F → CategorySlice F → Sign)
      → List (CategorySlice F)
      → List (CategorySlice F))
    → ((cmp : CategorySlice F → CategorySlice F → Sign) (cs : List (CategorySlice F))
        → Permᴰ (sort cmp cs) cs)
    → (nature search : Text) (by : SortBy) (categories : List (CategorySlice F))
    → (shown rest : List (CategorySlice F)) × (shown ++ rest
        ≡ sort (comparison amounts by) (filter (is_listed lower nature search) categories))
      × Permᴰ (shown ++ rest) (filter (is_listed lower nature search) categories)
      × IsDrawn amounts shown rest
          (donut_data amounts (processed_categories amounts lower sort nature search by categories))
unfolding processed_categories
donut_data-processed_categories amounts lower sort moves nature search by categories =
    let listed = filter (is_listed lower nature search) categories in
    let (shown, rest, whole, draws) = drawn amounts (sort (comparison amounts by) listed) in
    (
      shown,
      rest,
      whole,
      subst (λ cs. Permᴰ cs listed) (sym whole) (moves (comparison amounts by) listed),
      draws,
    )
