-- ===== src/Admin/Invitations.antt =====
-- The requests and invitations of frontend/src/shared/components/admin/AdminConsole.tsx: approving and
-- rejecting a request, inviting and suspending a user, and the lists that are fetched again. Handlers
-- are cut at their awaits; `lower` is `toLowerCase`.
pub mod Sent
use finance_buddy.Admin.{AccessRequest}
use finance_buddy.Prelude.{
  Bool, List, Option, String, Text, [], codes, false, if◌then◌else◌, is_empty, nat_eq, none,
  or_else, some, trim, true, ◌++◌, ◌∷◌,
}
use finance_buddy.Store.{given}

pub data SnackbarSeverity : Type 0 where
  succeeded informed errored : SnackbarSeverity

pub record Snackbar : Type 0 where
  pub text : Text
  pub severity : SnackbarSeverity

pub record Desk : Type 0 where
  pub requests : List AccessRequest
  pub is_loading : Bool
  pub is_refreshing : Bool
  pub error : Option Text
  pub action_loading : Bool
  pub invite_name : Text
  pub invite_email : Text
  pub invite_loading : Bool
  pub suspend_email : Text
  pub suspend_loading : Bool
  pub snackbar : Option Snackbar

-- An answer with its message, if it has one, or an error with the texts that are looked for.
pub data ActionReply : Type 0 where
  fine : (message : Option Text) → ActionReply
  failed : (detail message : Option Text) → ActionReply

pub record Invitation : Type 0 where
  pub email : Text
  pub name : Text

abbrev pub said : SnackbarSeverity → Text → Desk → Desk
said severity text s = record s { snackbar = some (record { text = text; severity = severity }) }

-- `err?.response?.data?.detail || err?.message || otherwise`
abbrev pub error_text : Option Text → Option Text → String → Text
error_text detail message otherwise = or_else detail (or_else message (codes otherwise))

-- `fetchRequests`, its answer, if it is none an error, and its end.
unfoldable pub fetch_requests : Bool → Desk → Desk
fetch_requests is_refresh s = record s {
  is_loading = if is_refresh then s.is_loading else true;
  is_refreshing = if is_refresh then true else s.is_refreshing;
  error = none;
}

unfoldable pub requests_came : Option (List AccessRequest) → Desk → Desk
requests_came requests s = record s {
  requests = given requests [];
  is_loading = false;
  is_refreshing = false;
}

unfoldable pub requests_failed : Option Text → Option Text → Desk → Desk
requests_failed detail message s = record s {
  error = some (error_text detail message "Failed to fetch access requests.");
  is_loading = false;
  is_refreshing = false;
}

-- `handleApprove` and `handleReject`; rejecting is confirmed in a dialog first. After a success the
-- lists are fetched again before `action_ended`.
unfoldable pub action_start : Desk → Desk
action_start s = record s { action_loading = true }

unfoldable pub approve_answered : AccessRequest → ActionReply → Desk → Desk
approve_answered r (fine message) s =
    said succeeded (or_else message (codes "Invite email sent to " ++ r.email ++ codes "!")) s
approve_answered r (failed detail message) s =
    record (said errored (error_text detail message "Failed to send invite email.") s) {
      action_loading = false;
    }

unfoldable pub reject_start : Bool → Desk → Desk
unfolding action_start
reject_start confirmed s = if confirmed then action_start s else s

unfoldable pub reject_answered : AccessRequest → ActionReply → Desk → Desk
reject_answered r (fine message) s =
    said informed
      (or_else message
        (codes "Request for " ++ r.email ++ codes " rejected and deleted from database."))
      s
reject_answered r (failed detail message) s =
    record (said errored (error_text detail message "Failed to reject request.") s) {
      action_loading = false;
    }

unfoldable pub action_ended : Desk → Desk
action_ended s = record s { action_loading = false }

-- `email.split('@')[0]`
abbrev pub before_at : Text → Text
before_at [] = []
before_at (c ∷ s) = let rest = before_at s in if nat_eq c 64 then [] else c ∷ rest

module _ (lower : Text → Text) where
  -- `handleInviteUser`: what is sent, if anything.
  unfoldable pub invite_start : Desk → Option Invitation × Desk
  unfolding trim
  invite_start s =
      let email = lower (trim s.invite_email) in
      let name = trim s.invite_name in
      if is_empty email
      then (none, said errored (codes "Email is required to invite a user.") s)
      else (
        some (record { email = email; name = or_else (some name) (before_at email) }),
        record s { invite_loading = true },
      )

  -- `handleSuspendUser`: the email that is sent, if any.
  unfoldable pub suspend_start : Bool → Desk → Option Text × Desk
  unfolding trim
  suspend_start confirmed s =
      let email = lower (trim s.suspend_email) in
      if is_empty email
      then (none, said errored (codes "Email is required to suspend a user.") s)
      else if confirmed
      then (some email, record s { suspend_loading = true })
      else (none, s)

-- The answers; after a success the lists are fetched again before `invite_ended`, `suspend_ended`.
unfoldable pub invite_answered : Invitation → ActionReply → Desk → Desk
invite_answered i (fine message) s =
    record (said succeeded (or_else message (codes "Invite email sent to " ++ i.email ++ codes "!"))
      s) { invite_name = []; invite_email = [] }
invite_answered i (failed detail message) s =
    record (said errored (error_text detail message "Failed to invite user.") s) {
      invite_loading = false;
    }

unfoldable pub invite_ended : Desk → Desk
invite_ended s = record s { invite_loading = false }

unfoldable pub suspend_answered : Text → ActionReply → Desk → Desk
suspend_answered email (fine message) s =
    record (said informed (or_else message (codes "User " ++ email ++ codes " access suspended."))
      s) { suspend_email = [] }
suspend_answered email (failed detail message) s =
    record (said errored (error_text detail message "Failed to suspend user.") s) {
      suspend_loading = false;
    }

unfoldable pub suspend_ended : Desk → Desk
suspend_ended s = record s { suspend_loading = false }
