-- ===== src/Auth/Access.antt =====
-- Asking whether an email has an access request: `checkAccessStatus`, `lookupAccessNotice` and
-- `lookupAccessNoticeForEmails` of authClient.ts. `access_status` is what the server answers for an
-- email, `none` where it refuses or cannot be reached; `lower` is `String.prototype.toLowerCase`.
pub mod Distinct
pub mod Answer
use finance_buddy.Auth.Notice.{AccessStatus, not_requested, pending, approved}
use finance_buddy.Prelude.{
  Bool, List, Option, Text, [], any, codes, false, find, if◌then◌else◌, is_empty, map, none,
  or_else, some, text_eq, trim, true, ◌||◌, ◌∷◌,
}
use finance_buddy.Store.{given}

pub record AccessNotice : Type 0 where
  pub message : Text
  pub access_request_status : AccessStatus
  pub email : Option Text

-- `REQUEST_ACCESS_MESSAGE`
unfoldable pub request_access_message : Text
request_access_message =
    codes
      "You do not have access yet. Please raise an access request, or enter your email above and tap Check status."

abbrev no_request : Option Text → AccessNotice
no_request email = record {
  message = request_access_message;
  access_request_status = not_requested;
  email = email;
}

abbrev pub is_requested : AccessStatus → Bool
is_requested not_requested = false
is_requested pending = true
is_requested approved = true

module _ (access_status : Text → Option (Text × AccessStatus)) where
  unfoldable pub check_access_status : Text → Option (Text × AccessStatus)
  check_access_status email = access_status (trim email)

  abbrev answered_notice : Text → Option (Text × AccessStatus) → AccessNotice
  answered_notice email none = no_request (some email)
  answered_notice email (some (message, status)) = record {
    message = message;
    access_request_status = status;
    email = some email;
  }

  unfoldable pub lookup_access_notice : Option Text → AccessNotice
  unfolding check_access_status
  lookup_access_notice email =
      let trimmed = trim (or_else email []) in
      if is_empty trimmed
      then no_request none
      else answered_notice trimmed (check_access_status trimmed)

abbrev pub contains : List Text → Text → Bool
contains seen key = any (λ k. text_eq k key) seen

module _ (lower : Text → Text) where
  -- The loop that collects the distinct emails: `seen` holds the keys met so far.
  unfoldable pub unique_emails : List Text → List (Option Text) → List Text
  unique_emails seen [] = []
  unique_emails seen (raw ∷ emails) =
      let trimmed = trim (or_else raw []) in
      let skip = unique_emails seen emails in
      let keep = trimmed ∷ unique_emails (lower trimmed ∷ seen) emails in
      if is_empty trimmed || contains seen (lower trimmed) then skip else keep

-- `results.find(…) ?? results[results.length - 1]`, and the notice for no email at all.
abbrev last_notice : AccessNotice → List AccessNotice → AccessNotice
last_notice d [] = d
last_notice d (r ∷ rs) = last_notice r rs

abbrev pub pick_notice : List AccessNotice → AccessNotice
pick_notice rs =
    given (find (λ r. is_requested r.access_request_status) rs) (last_notice (no_request none) rs)

module _ (access_status : Text → Option (Text × AccessStatus)) (lower : Text → Text) where
  unfoldable pub lookup_access_notice_for_emails : List (Option Text) → AccessNotice
  unfolding unique_emails lookup_access_notice
  lookup_access_notice_for_emails emails =
      pick_notice
        (map (λ e. lookup_access_notice access_status (some e)) (unique_emails lower [] emails))
