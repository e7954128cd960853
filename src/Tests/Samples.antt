-- ===== src/Tests/Samples.antt =====
-- A signed-in user, a browser, and a token that expires 1000 seconds after the epoch.
use finance_buddy.Browser.{World}
use finance_buddy.Prelude.{
  Option, Text, [], codes, false, if◌then◌else◌, none, some, text_eq, true, ℕ, ◌∷◌,
}
use finance_buddy.Store.{IdentityUpdate, AppState, active, user, old, tax_expert, default_filters}

abbrev pub user_update : IdentityUpdate
user_update = record {
  user_id = some (codes "u1");
  email = some (some (codes "a@b.c"));
  display_name = none;
  pan = some (some (codes "ABCDE1234F"));
  status = some (some active);
  role = some (some user);
}

abbrev pub signed_in : AppState
signed_in = record {
  pan = some (codes "ABCDE1234F");
  user_id = some (codes "u1");
  email = some (codes "a@b.c");
  display_name = none;
  status = some active;
  role = some user;
  tax_slab = 20;
  tax_regime = old;
  active_module = tax_expert;
  mf_session_id = some (codes "m1");
  tax_session_id = some (codes "t1");
  equity_session_id = none;
  parse_data = none;
  filters = default_filters;
  is_partial = true;
  last_synced = 5;
  compare_funds = ("m1", codes "F1" ∷ []) ∷ [];
  compare_bench = [];
}

abbrev pub browser : World
browser = record {
  state = signed_in;
  local_storage = ("finance-buddy-storage", codes "{}") ∷ ("theme", codes "dark") ∷ [];
  session_storage = ("fb_must_set_password", codes "1") ∷ ("other", codes "x") ∷ [];
  storage_blocked = false;
  location = record { pathname = codes "/"; search = []; hash = [] };
  cache = none;
  handling_401 = false;
}

abbrev pub token : Text
token = codes "h.p.s"

abbrev pub exp_1000 : Text → Option ℕ
exp_1000 payload = if text_eq payload (codes "p") then some 1000 else none
