-- ===== src/Tests/Directory.antt =====
-- The directory of schemes of the admin console, with more schemes than a page holds, and what the
-- console sends.
use finance_buddy.Admin.Directory.{
  Scheme, Directory, fetch_mf_data, initial_directory, schemes_answered, offers_more,
}
use finance_buddy.Admin.Directory.Pages.{
  Catalogue, answered_by, press_more, all_schemes_are_listed, first,
}
use finance_buddy.Admin.Invitations.{Desk, invite_start, suspend_start}
use finance_buddy.Prelude.{
  List, [], arith, codes, false, none, refl, some, suc, trim, true, zero, ℕ, ◌∷◌, ◌≡◌,
}
use finance_buddy.Tests.App.{same_case}

abbrev schemes_down_from : ℕ → List Scheme
schemes_down_from zero = []
schemes_down_from (suc n) = record { code = n ∷ []; name = codes "Fund" } ∷ schemes_down_from n

abbrev sixty : Catalogue
sixty query amc category = schemes_down_from 60

abbrev fetched : Directory
fetched = answered_by sixty (fetch_mf_data initial_directory)

all_schemes_are_listed_example :
    ((press_more sixty 1 fetched).schemes ≡ schemes_down_from 60)
    × (offers_more (press_more sixty 1 fetched) ≡ false)
unfolding fetch_mf_data initial_directory schemes_answered
all_schemes_are_listed_example = all_schemes_are_listed sixty 1 first (omega arith)

abbrev desk : Desk
desk = record {
  requests = [];
  is_loading = false;
  is_refreshing = false;
  error = none;
  action_loading = false;
  invite_name = [];
  invite_email = codes " a@b.c ";
  invite_loading = false;
  suspend_email = [];
  suspend_loading = false;
  snackbar = none;
}

invite_tests :
    ((invite_start same_case desk).0 ≡ some (record { email = codes "a@b.c"; name = codes "a" }))
    × ((suspend_start same_case true desk).0 ≡ none)
unfolding invite_start suspend_start trim
invite_tests = (refl, refl)
