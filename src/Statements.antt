-- ===== src/Statements.antt =====
-- The statement history, frontend/src/shared/components/dashboard/UploadHistory.tsx: uploading, comparing,
-- restoring and deleting statements, cut at the awaits. The ledger of a comparison is in `Ledger`.
pub mod ByFund
pub mod Ledger
pub mod Totals
use finance_buddy.Auth.PasswordSetup.{is_text}
use finance_buddy.Prelude.{
  Bool, List, Option, String, Text, [], codes, false, filter, if◌then◌else◌, none, not, some,
  text_eq, true, ℕ, ◌∷◌, ◌==◌,
}
use finance_buddy.Statements.Ledger.{Comparison}
use finance_buddy.Store.{
  AppState, ParseData, given, set_session_by_id, set_session, session_id, default_filters,
}

-- The state of the page, over the application store.
pub record Statements (F : Type 0) : Type 0 where
  pub store : AppState
  pub history : List Text
  pub comparing_with : Option Text
  pub compare_result : Option (Comparison F)
  pub compare_loading : Bool
  pub upload_file : Option Text
  pub show_upload : Bool
  pub upload_loading : Bool
  pub upload_error : Option Text

-- `handleUpload`: the file that is sent; then its answer, an error, and the history that is fetched
-- after the queries.
unfoldable pub statement_upload : {F : Type 0} → Statements F → Option Text × Statements F
statement_upload s = elim s.upload_file [
  | none ↦ (none, s)
  | some f ↦ (some f, record s { upload_loading = true; upload_error = none })
]

unfoldable pub statement_parsed :
    {F : Type 0} → ℕ → Text → Option ParseData → Statements F → Statements F
statement_parsed now id parsed s = record s {
  store = set_session now id "mutual_funds" parsed s.store;
}

unfoldable pub statement_refused : {F : Type 0} → Option Text → Statements F → Statements F
statement_refused detail s = record s {
  upload_error = some (given detail (codes "Failed to parse. Please check the file."));
  upload_loading = false;
}

unfoldable pub statement_listed : {F : Type 0} → Option (List Text) → Statements F → Statements F
statement_listed history s = record s {
  history = given history [];
  show_upload = false;
  upload_file = none;
  upload_loading = false;
}

-- `handleCompare`: the older and the newer session that are compared, and the answer, if any.
unfoldable pub compare_start :
    {F : Type 0} → Text → Statements F → Option (Text × Text) × Statements F
unfolding session_id
compare_start target s = elim (session_id s.store) [
  | none ↦ (none, s)
  | some [] ↦ (none, s)
  | some (c ∷ current) ↦ (
    some (target, c ∷ current),
    record s { comparing_with = some target; compare_loading = true },
  )
]

unfoldable pub comparison_came : {F : Type 0} → Option (Comparison F) → Statements F → Statements F
comparison_came none s = record s { compare_loading = false }
comparison_came (some c) s = record s { compare_result = some c; compare_loading = false }

-- `setSessionById(null, type)`
abbrev pub clear_session_id : ℕ → String → AppState → AppState
clear_session_id now type s = record s {
  mf_session_id = if type == "mutual_funds" then none else s.mf_session_id;
  tax_session_id = if type == "tax_expert" then none else s.tax_session_id;
  equity_session_id = if type == "equity" then none else s.equity_session_id;
  last_synced = now;
  filters = default_filters;
}

-- `restoreSession`, up to the refetch.
unfoldable pub restore_session : {F : Type 0} → ℕ → Text → String → Statements F → Statements F
restore_session now sid module' s = record s { store = set_session_by_id now sid module' s.store }

-- `handleDeleteSession`, once the server has deleted it: `current` and `comparing` are what its
-- closure holds, and `module'` names the module on show. A session that is open is closed, and with
-- it what was compared.
unfoldable pub statement_deleted :
    {F : Type 0}
    → ℕ
    → String
    → (current comparing : Option Text) → Text
    → Statements F
    → Statements F
statement_deleted now module' current comparing sid s = record s {
  history = filter (λ h. not (text_eq h sid)) s.history;
  comparing_with = if is_text comparing sid then none else s.comparing_with;
  compare_result = if is_text comparing sid then none else s.compare_result;
  store = if is_text current sid then clear_session_id now module' s.store else s.store;
}
