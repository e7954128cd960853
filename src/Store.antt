-- ===== src/Store.antt =====
-- The application store, frontend/src/shared/store/appStore.ts: its state, its synchronous
-- actions, the slice that is written to local storage, and the selectors that read more than one
-- field. `Date.now()` is the argument `now`; `logout`, which waits for the server, is in
-- `SignIn.Logout`. Numbers that the interface enters (a slab, a minimum allocation) are naturals,
-- and of `parseData`, an `any`, the fields are kept that the store reads.
pub mod Identity
pub mod Sessions
use finance_buddy.Prelude.{
  ℕ, String, Text, Dict, insert, truthy, ◌==◌, if◌then◌else◌, Bool, true, false, ◌||◌, Option, none,
  some, List, [],
}

pub data Status : Type 0 where
  pending active suspended : Status

pub data Role : Type 0 where
  user admin : Role

pub data Regime : Type 0 where
  new old : Regime

pub data Module : Type 0 where
  mutual_funds indian_stocks tax_expert : Module

pub data Plan : Type 0 where
  all direct regular : Plan

pub record Filters : Type 0 where
  pub benchmark : String
  pub categories : List Text
  pub amcs : List Text
  pub plan : Plan
  pub min_alloc : ℕ

-- `Partial<Filters>`: a field that is left out is `none`.
pub record FiltersUpdate : Type 0 where
  pub benchmark : Option String
  pub categories : Option (List Text)
  pub amcs : Option (List Text)
  pub plan : Option Plan
  pub min_alloc : Option ℕ

pub record ParseData : Type 0 where
  pub is_partial : Option Bool
  pub categories : Option (List Text)
  pub amcs : Option (List Text)

pub record AppState : Type 0 where
  pub pan : Option Text
  pub user_id : Option Text
  pub email : Option Text
  pub display_name : Option Text
  pub status : Option Status
  pub role : Option Role
  pub tax_slab : ℕ
  pub tax_regime : Regime
  pub active_module : Module
  pub mf_session_id : Option Text
  pub tax_session_id : Option Text
  pub equity_session_id : Option Text
  pub parse_data : Option ParseData
  pub filters : Filters
  pub is_partial : Bool
  pub last_synced : ℕ
  pub compare_funds : Dict (List Text)
  pub compare_bench : Dict Text

abbrev pub default_filters : Filters
default_filters = record {
  benchmark = "Nifty 50";
  categories = [];
  amcs = [];
  plan = all;
  min_alloc = 0;
}

unfoldable pub initial_state : ℕ → AppState
initial_state now = record {
  pan = none;
  user_id = none;
  email = none;
  display_name = none;
  status = none;
  role = none;
  tax_slab = 30;
  tax_regime = new;
  active_module = mutual_funds;
  mf_session_id = none;
  tax_session_id = none;
  equity_session_id = none;
  parse_data = none;
  filters = default_filters;
  is_partial = false;
  last_synced = now;
  compare_funds = [];
  compare_bench = [];
}

-- `v ?? d`, and `v !== undefined ? v : d` where `none` is undefined.
abbrev pub given {ℓ} : {A : Type ℓ} → Option A → A → A
given none d = d
given (some v) d = v

-- The argument of `setIdentity`. All but `user_id` may be undefined (`none`) or null (`some none`).
pub record IdentityUpdate : Type 0 where
  pub user_id : Option Text
  pub email : Option (Option Text)
  pub display_name : Option (Option Text)
  pub pan : Option (Option Text)
  pub status : Option (Option Status)
  pub role : Option (Option Role)

unfoldable pub set_identity : IdentityUpdate → AppState → AppState
set_identity u s = record s {
  user_id = u.user_id;
  email = given u.email s.email;
  display_name = given u.display_name s.display_name;
  pan = given u.pan s.pan;
  status = given u.status s.status;
  role = given u.role s.role;
}

unfoldable pub clear_identity : AppState → AppState
clear_identity s = record s {
  user_id = none;
  email = none;
  display_name = none;
  pan = none;
  status = none;
  role = none;
  mf_session_id = none;
  tax_session_id = none;
  equity_session_id = none;
  parse_data = none;
  is_partial = false;
}

unfoldable pub set_tax_slab : ℕ → AppState → AppState
set_tax_slab slab s = record s { tax_slab = slab }

unfoldable pub set_tax_regime : Regime → AppState → AppState
set_tax_regime regime s = record s { tax_regime = regime }

abbrev pub same_module : Module → Module → Bool
same_module mutual_funds mutual_funds = true
same_module indian_stocks indian_stocks = true
same_module tax_expert tax_expert = true
same_module _ _ = false

unfoldable pub set_active_module : Module → AppState → AppState
set_active_module module' s =
    if same_module s.active_module module' then s else record s { active_module = module' }

unfoldable pub set_compare_funds : String → List Text → AppState → AppState
set_compare_funds sid funds s = record s { compare_funds = insert sid funds s.compare_funds }

unfoldable pub set_compare_bench : String → Text → AppState → AppState
set_compare_bench sid bench s = record s { compare_bench = insert sid bench s.compare_bench }

-- `data?.f ?? d`
abbrev pub field_or {ℓ} : {A : Type ℓ} → Option ParseData → (ParseData → Option A) → A → A
field_or none f d = d
field_or (some p) f d = given (f p) d

unfoldable pub set_session : ℕ → Text → String → Option ParseData → AppState → AppState
set_session now id type parsed s = record s {
  mf_session_id = if type == "mutual_funds" then some id else s.mf_session_id;
  tax_session_id = if type == "tax_expert" then some id else s.tax_session_id;
  equity_session_id = if type == "equity" then some id else s.equity_session_id;
  parse_data = parsed;
  is_partial = field_or parsed (λ p. p.is_partial) false;
  last_synced = now;
  filters = record default_filters {
    categories = field_or parsed (λ p. p.categories) [];
    amcs = field_or parsed (λ p. p.amcs) [];
  };
}

unfoldable pub set_session_by_id : ℕ → Text → String → AppState → AppState
set_session_by_id now id type s = record s {
  mf_session_id = if type == "mutual_funds" then some id else s.mf_session_id;
  tax_session_id = if type == "tax_expert" then some id else s.tax_session_id;
  equity_session_id = if type == "equity" then some id else s.equity_session_id;
  last_synced = now;
  filters = default_filters;
}

-- `!type || type === name`
abbrev pub clears : Option String → String → Bool
clears none name = true
clears (some type) name = type == "" || type == name

unfoldable pub clear_session : ℕ → Option String → AppState → AppState
clear_session now type s = record s {
  mf_session_id = if clears type "mutual_funds" then none else s.mf_session_id;
  tax_session_id = if clears type "tax_expert" then none else s.tax_session_id;
  equity_session_id = if clears type "equity" then none else s.equity_session_id;
  parse_data = none;
  is_partial = false;
  last_synced = now;
}

-- The last `set` of `logout`, which runs whatever happened before it.
unfoldable pub reset_on_logout : ℕ → AppState → AppState
reset_on_logout now s = record s {
  user_id = none;
  email = none;
  display_name = none;
  pan = none;
  status = none;
  role = none;
  mf_session_id = none;
  tax_session_id = none;
  equity_session_id = none;
  parse_data = none;
  is_partial = false;
  tax_regime = new;
  filters = default_filters;
  last_synced = now;
  compare_funds = [];
  compare_bench = [];
}

unfoldable pub set_filters : FiltersUpdate → AppState → AppState
set_filters f s = record s {
  filters = record {
    benchmark = given f.benchmark s.filters.benchmark;
    categories = given f.categories s.filters.categories;
    amcs = given f.amcs s.filters.amcs;
    plan = given f.plan s.filters.plan;
    min_alloc = given f.min_alloc s.filters.min_alloc;
  };
}

unfoldable pub trigger_refresh : ℕ → AppState → AppState
trigger_refresh now s = record s { last_synced = now }

-- What `partialize` keeps, and so what `persist` writes to local storage.
pub record Persisted : Type 0 where
  pub user_id : Option Text
  pub email : Option Text
  pub display_name : Option Text
  pub pan : Option Text
  pub tax_regime : Regime
  pub tax_session_id : Option Text
  pub compare_funds : Dict (List Text)
  pub compare_bench : Dict Text

unfoldable pub partialize : AppState → Persisted
partialize s = record {
  user_id = s.user_id;
  email = s.email;
  display_name = s.display_name;
  pan = s.pan;
  tax_regime = s.tax_regime;
  tax_session_id = s.tax_session_id;
  compare_funds = s.compare_funds;
  compare_bench = s.compare_bench;
}

-- `useSessionId`
unfoldable pub session_id : AppState → Option Text
session_id s = elim s.active_module [
  | mutual_funds ↦ s.mf_session_id
  | tax_expert ↦ s.tax_session_id
  | indian_stocks ↦ s.equity_session_id
]

-- `useIsAuthenticated`
unfoldable pub is_authenticated : AppState → Bool
is_authenticated s = truthy s.user_id || truthy s.pan
