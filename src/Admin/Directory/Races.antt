-- ===== src/Admin/Directory/Races.antt =====
-- Searches of the directory that overlap: nothing tells an old answer from a new one.
use finance_buddy.Admin.Directory.{
  handle_select_filter, schemes_answered, handle_search_mf, Directory, search_timer, SchemesPage,
  by_amc, schemes_or_none, search_for,
}
use finance_buddy.Prelude.{Text, false, refl, some, ◌≡◌}

-- Two AMCs are chosen one after the other, and the first is answered last: its schemes are listed
-- under the second.
pub earlier_filter_is_listed :
    (s : Directory) (v v' : Text) (p p' : SchemesPage)
    → let (q, s₁) = handle_select_filter by_amc v s in
      let (q', s₂) = handle_select_filter by_amc v' s₁ in
      let t = schemes_answered q (some p) (schemes_answered q' (some p') s₂) in
      (t.amc ≡ v') × (t.schemes ≡ schemes_or_none p.schemes) × (t.is_loading ≡ false)
unfolding handle_select_filter schemes_answered
earlier_filter_is_listed s v v' p p' = (refl, refl, refl)

-- An AMC is chosen within 300 ms after the search text was typed: what the timer then asks for is
-- for the AMC that was chosen before.
pub typed_search_ignores_filter :
    (s : Directory) (q v : Text) (p : SchemesPage)
    → let (f, s₁) = handle_select_filter by_amc v (handle_search_mf q s) in
      let (asked, s₂) = search_timer (schemes_answered f (some p) s₁) in
      (asked ≡ some (search_for q s.amc s.category 0 false)) × (s₂.amc ≡ v)
unfolding handle_select_filter handle_search_mf search_timer schemes_answered
typed_search_ignores_filter s q v p = (refl, refl)
