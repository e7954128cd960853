-- ===== src/Admin.antt =====
-- The state of AdminConsole.tsx, frontend/src/shared/components/admin: access requests, accounts with
-- their drafts, the deletion of an account and the deletion of market data. `my_user_id` comes from
-- the application store. A function that awaits the server is cut at the await.
pub mod Deletion
pub mod Counts
pub mod Directory
pub mod Ingest
pub mod Invitations
use finance_buddy.Auth.PasswordSetup.{is_text}
use finance_buddy.Prelude.{
  Bool, List, Option, Text, [], codes, false, filter, if◌then◌else◌, includes, is_empty, is_none,
  length, none, not, or_else, some, text_eq, trim, true, ℕ, ◌&&◌, ◌||◌, ◌∷◌,
}
use finance_buddy.Store.{given}

pub data UserStatus : Type 0 where
  pending active suspended : UserStatus

pub data UserRole : Type 0 where
  user admin : UserRole

pub record AppUser : Type 0 where
  pub user_id : Text
  pub email : Option Text
  pub status : UserStatus
  pub role : UserRole

pub record Draft : Type 0 where
  pub status : UserStatus
  pub role : UserRole

pub record AccessRequest : Type 0 where
  pub email : Text
  pub name : Text
  pub investor_type : Text
  pub notes : Text
  pub status : Option Text

pub data PurgeMode : Type 0 where
  purge_everything purge_amc : PurgeMode

pub record Console : Type 0 where
  pub my_user_id : Option Text
  pub requests : List AccessRequest
  pub accounts : List AppUser
  pub account_drafts : List (Text × Draft)
  pub saving_user_id : Option Text
  pub delete_target : Option AppUser
  pub delete_confirm : Text
  pub delete_loading : Bool
  pub purge_mode : PurgeMode
  pub purge_target_amc : Text
  pub purge_confirm_text : Text

-- `normalizeStatus`: whether it is 'approved', else it is 'pending'.
abbrev pub is_approved : (Text → Text) → Option Text → Bool
unfolding trim
is_approved lower status = text_eq (trim (lower (or_else status []))) (codes "approved")

-- The choice of `statusFilter`.
pub data StatusFilter : Type 0 where
  all_requests pending_requests approved_requests : StatusFilter

abbrev pub passes : StatusFilter → Bool → Bool
passes all_requests approved = true
passes pending_requests approved = not approved
passes approved_requests approved = approved

unfoldable pub request_matches : (Text → Text) → Text → AccessRequest → Bool
unfolding trim
request_matches lower search r =
    let q = trim (lower search) in
    is_empty q
    || includes (lower r.name) q
    || includes (lower r.email) q
    || includes (lower r.notes) q
    || includes (lower r.investor_type) q

unfoldable pub filtered_requests :
    (Text → Text) → Text → StatusFilter → List AccessRequest → List AccessRequest
unfolding request_matches
filtered_requests lower search chosen requests =
    filter (λ r. request_matches lower search r && passes chosen (is_approved lower r.status))
      requests

pub record Stats : Type 0 where
  pub total : ℕ
  pub pending : ℕ
  pub approved : ℕ

unfoldable pub stats : (Text → Text) → List AccessRequest → Stats
stats lower requests = record {
  total = length requests;
  pending = length (filter (λ r. not (is_approved lower r.status)) requests);
  approved = length (filter (λ r. is_approved lower r.status) requests);
}

unfoldable pub filtered_accounts : (Text → Text) → Text → List AppUser → List AppUser
unfolding trim
filtered_accounts lower search accounts =
    let q = trim (lower search) in
    filter
      (λ u. is_empty q || includes (lower (or_else u.email [])) q || includes (lower u.user_id) q)
      accounts

abbrev pub find_draft : Text → List (Text × Draft) → Option Draft
find_draft id [] = none
find_draft id ((j, d) ∷ drafts) = if text_eq j id then some d else find_draft id drafts

-- The drafts of a list of accounts; of two accounts with one id the later one's stands first.
unfoldable pub drafts_of : List AppUser → List (Text × Draft) → List (Text × Draft)
drafts_of [] drafts = drafts
drafts_of (u ∷ us) drafts =
    drafts_of us ((u.user_id, record { status = u.status; role = u.role }) ∷ drafts)

-- fetchAccounts, with the server's answer.
unfoldable pub accounts_loaded : List AppUser → Console → Console
unfolding drafts_of
accounts_loaded list s = record s { accounts = list; account_drafts = drafts_of list [] }

abbrev pub draft_or_new : Text → Console → Draft
draft_or_new id s =
    given (find_draft id s.account_drafts) (record { status = pending; role = user })

-- updateAccountDraft, for each of its two fields.
unfoldable pub set_draft_status : Text → UserStatus → Console → Console
set_draft_status id status s = record s {
  account_drafts = (id, record (draft_or_new id s) { status = status }) ∷ s.account_drafts;
}

unfoldable pub set_draft_role : Text → UserRole → Console → Console
set_draft_role id role s = record s {
  account_drafts = (id, record (draft_or_new id s) { role = role }) ∷ s.account_drafts;
}

-- The request of handleSaveAccount, unless there is no draft.
unfoldable pub save_account : Text → Console → Option (Text × Draft)
save_account id s = elim (find_draft id s.account_drafts) [ none ↦ none | some d ↦ some (id, d) ]

unfoldable pub save_start : Text → Console → Console
unfolding save_account
save_start id s = if is_none (save_account id s) then s else record s { saving_user_id = some id }

unfoldable pub save_answered : Console → Console
save_answered s = record s { saving_user_id = none }

unfoldable pub open_delete_user : AppUser → Console → Console
open_delete_user u s = record s { delete_target = some u; delete_confirm = [] }

-- The delete button of a row is enabled.
unfoldable pub can_open : AppUser → Console → Bool
can_open u s =
    not (is_text s.saving_user_id u.user_id || s.delete_loading || is_text s.my_user_id u.user_id)

-- The button of the dialog is enabled.
unfoldable pub can_delete : (Text → Text) → Console → Bool
unfolding trim
can_delete lower s = elim s.delete_target [
  | none ↦ false
  | some u ↦
      not s.delete_loading
      && text_eq (lower (trim s.delete_confirm)) (lower (trim (or_else u.email u.user_id)))
]

-- The account that handleConfirmDeleteUser asks the server to delete.
unfoldable pub deleted_user : Console → Option Text
deleted_user s = elim s.delete_target [ none ↦ none | some u ↦ some u.user_id ]

unfoldable pub delete_start : Console → Console
delete_start s = if is_none s.delete_target then s else record s { delete_loading = true }

-- The server's answer; after a success the dialog is closed, and the lists are fetched again before
-- `delete_ended`.
unfoldable pub delete_answered : Bool → Console → Console
delete_answered true s = record s { delete_target = none; delete_confirm = [] }
delete_answered false s = record s { delete_loading = false }

unfoldable pub delete_ended : Console → Console
delete_ended s = record s { delete_loading = false }

-- What handlePurge asks the server to delete: everything, or what is of one AMC.
pub data Purge : Type 0 where
  of_all : Purge
  of_amc : Text → Purge

unfoldable pub purge_request : (Text → Text) → Console → Option Purge
unfolding trim
purge_request upper s = elim s.purge_mode [
  | purge_everything ↦
      if text_eq (upper (trim s.purge_confirm_text)) (codes "PURGE") then some of_all else none
  | purge_amc ↦ if is_empty s.purge_target_amc then none else some (of_amc s.purge_target_amc)
]
