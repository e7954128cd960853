-- ===== src/Admin/Ingest.antt =====
-- What is ingested, in frontend/src/shared/components/admin/AdminConsole.tsx: the scope of a sync with
-- its list of AMCs, the sync itself, the status that is fetched, and the end of a purge. The page of
-- schemes that is fetched with it is in `Directory`.
use finance_buddy.Admin.Invitations.{Snackbar, errored, succeeded, SnackbarSeverity, error_text}
use finance_buddy.Prelude.{
  Bool, List, Option, String, Text, [], any, codes, false, filter, if◌then◌else◌, is_empty, none,
  not, or_else, some, text_eq, trim, true, ◌++◌, ◌∷◌, ◌≡◌, arith,
}

pub data SyncScope : Type 0 where
  top10 top5 everything custom : SyncScope

pub data MfPanel : Type 0 where
  ingest explore : MfPanel

pub record Ingestion : Type 0 where
  pub sync_scope : SyncScope
  pub custom_amcs : List Text
  pub new_amc_input : Text
  pub synced_amcs : List Text
  pub purge_target_amc : Text
  pub purge_dialog_open : Bool
  pub purge_confirm_text : Text
  pub purge_loading : Bool
  pub is_triggering : Bool
  pub status_loading : Bool
  pub panel : MfPanel
  pub snackbar : Option Snackbar

-- The payload of `triggerMfSync`.
pub data SyncPayload : Type 0 where
  of_amcs : List Text → SyncPayload
  preset : String → SyncPayload

abbrev pub announced : SnackbarSeverity → Text → Ingestion → Ingestion
announced severity text s = record s {
  snackbar = some (record { text = text; severity = severity });
}

abbrev pub payload_of : SyncScope → List Text → SyncPayload
payload_of top10 amcs = preset "top10"
payload_of top5 amcs = preset "top5"
payload_of everything amcs = preset "all"
payload_of custom amcs = of_amcs amcs

abbrev pub is_empty_custom : SyncScope → List Text → Bool
is_empty_custom custom [] = true
is_empty_custom _ _ = false

abbrev pub trigger_with : SyncScope → List Text → Ingestion → Option SyncPayload × Ingestion
trigger_with scope amcs s =
    if is_empty_custom scope amcs
    then (none, announced errored (codes "Select at least one AMC before syncing.") s)
    else (some (payload_of scope amcs), record s { is_triggering = true })

-- `handleTriggerMfSync`: what is asked for, if anything.
unfoldable pub trigger_start : Ingestion → Option SyncPayload × Ingestion
trigger_start s = trigger_with s.sync_scope s.custom_amcs s

-- Its answer, with the message made of the number of schemes; then the status is fetched, and at the
-- end the panel changes.
unfoldable pub trigger_answered : (message counted : Option Text) → Ingestion → Ingestion
trigger_answered message count s =
    announced succeeded
      (or_else message (
        codes "Successfully synced "
        ++ or_else count (codes "undefined")
        ++ codes " mutual fund factsheets!"))
      s

unfoldable pub trigger_failed : (detail message : Option Text) → Ingestion → Ingestion
trigger_failed detail message s =
    record (announced errored (error_text detail message "Failed to trigger AMFI sync.") s) {
      is_triggering = false;
    }

unfoldable pub trigger_ended : Ingestion → Ingestion
trigger_ended s = record s { panel = explore; is_triggering = false }

abbrev pub target_after : Text → List Text → Text → Text
target_after target_then [] target = target
target_after target_then (a ∷ _) target = if is_empty target_then then a else target

-- `fetchMfData` and its ends: the AMCs, none of which if they could not be read, and the target of a
-- purge as it was when the call was made.
unfoldable pub status_start : Ingestion → Ingestion
status_start s = record s { status_loading = true }

unfoldable pub status_came : Text → List Text → Ingestion → Ingestion
status_came target_then amcs s = record s {
  synced_amcs = amcs;
  purge_target_amc = target_after target_then amcs s.purge_target_amc;
  status_loading = false;
}

unfoldable pub status_failed : (detail message : Option Text) → Ingestion → Ingestion
status_failed detail message s =
    record (announced errored (error_text detail message "Failed to load market data status.") s) {
      status_loading = false;
    }

-- `addCustomAmc`; `lower` is `toLowerCase`.
unfoldable pub add_custom_amc : (Text → Text) → Ingestion → Ingestion
unfolding trim
add_custom_amc lower s =
    let trimmed = trim s.new_amc_input in
    if is_empty trimmed
    then s
    else if any (λ a. text_eq (lower a) (lower trimmed)) s.custom_amcs
    then record s { new_amc_input = [] }
    else record s { custom_amcs = s.custom_amcs ++ (trimmed ∷ []); new_amc_input = [] }

-- A chip of the list is pressed.
unfoldable pub toggle_amc : Text → Ingestion → Ingestion
toggle_amc amc s = record s {
  custom_amcs =
      if any (text_eq amc) s.custom_amcs
      then filter (λ a. not (text_eq a amc)) s.custom_amcs
      else s.custom_amcs ++ (amc ∷ []);
}

unfoldable pub purge_start : Ingestion → Ingestion
purge_start s = record s { purge_loading = true }

unfoldable pub purge_answered : (message counted : Option Text) → Ingestion → Ingestion
purge_answered message count s =
    record (announced succeeded
      (or_else message
        (codes "Deleted " ++ or_else count (codes "undefined") ++ codes " schemes from database."))
      s) { purge_dialog_open = false; purge_confirm_text = [] }

unfoldable pub purge_failed : (detail message : Option Text) → Ingestion → Ingestion
purge_failed detail message s =
    record (announced errored (error_text detail message "Purge operation failed.") s) {
      purge_loading = false;
    }

unfoldable pub purge_ended : Ingestion → Ingestion
purge_ended s = record s { purge_loading = false }

trigger_with-any :
    (scope : SyncScope) (all amcs : List Text) (s : Ingestion)
    → (trigger_with scope all s).0 ≡ some (of_amcs amcs)
    → (amcs ≡ all) × (is_empty_custom custom amcs ≡ false)
trigger_with-any top10 all amcs s h = ground arith
trigger_with-any top5 all amcs s h = ground arith
trigger_with-any everything all amcs s h = ground arith
trigger_with-any custom [] amcs s h = ground arith
trigger_with-any custom (a ∷ all) amcs s h = ground arith

-- A sync never asks for an empty list of AMCs.
custom_sync-any :
    (s : Ingestion) (amcs : List Text)
    → (trigger_start s).0 ≡ some (of_amcs amcs)
    → (amcs ≡ s.custom_amcs) × (is_empty_custom custom amcs ≡ false)
unfolding trigger_start
custom_sync-any s amcs h = trigger_with-any s.sync_scope s.custom_amcs amcs s h
