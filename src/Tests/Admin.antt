-- ===== src/Tests/Admin.antt =====
-- The deletion of an account in AdminConsole.tsx.
use finance_buddy.Admin.{
  AppUser, Console, can_open, can_delete, active, pending, purge_everything, accounts_loaded,
  open_delete_user, deleted_user, admin, user, save_account, set_draft_role, purge_request,
  drafts_of, of_all,
}
use finance_buddy.Admin.Deletion.{deleted_user-IsOther, followed, begin, loaded, opened, typed}
use finance_buddy.Auth.PasswordSetup.{is_text}
use finance_buddy.Prelude.{
  Text, [], codes, false, none, or_else, refl, some, text_eq, trim, true, ◌∷◌, ◌≡◌,
}

abbrev as_typed : Text → Text
as_typed t = t

abbrev me : AppUser
me = record { user_id = codes "u1"; email = some (codes "me@x"); status = active; role = admin }

abbrev guest : AppUser
guest = record { user_id = codes "u2"; email = none; status = pending; role = user }

abbrev console : Console
console = record {
  my_user_id = some (codes "u1");
  requests = [];
  accounts = [];
  account_drafts = [];
  saving_user_id = none;
  delete_target = none;
  delete_confirm = [];
  delete_loading = false;
  purge_mode = purge_everything;
  purge_target_amc = [];
  purge_confirm_text = codes " PURGE ";
}

abbrev loaded_console : Console
loaded_console = accounts_loaded (me ∷ guest ∷ []) console

draft_tests :
    (can_open me loaded_console ≡ false)
    × (can_open guest loaded_console ≡ true)
    × (save_account (codes "u2") (set_draft_role (codes "u2") admin loaded_console)
        ≡ some (codes "u2", record { status = pending; role = admin }))
    × (save_account (codes "u3") loaded_console ≡ none)
    × (purge_request as_typed console ≡ some of_all)
    × (purge_request as_typed (record console { purge_confirm_text = codes "yes" }) ≡ none)
unfolding can_open accounts_loaded save_account set_draft_role purge_request drafts_of trim
draft_tests = (refl, refl, refl, refl, refl, refl)

abbrev confirmed : Console
confirmed = record (open_delete_user guest loaded_console) { delete_confirm = codes " u2" }

guest_can_be_opened : can_open guest loaded_console ≡ true
unfolding can_open accounts_loaded
guest_can_be_opened = refl

guest_can_be_deleted : can_delete as_typed confirmed ≡ true
unfolding can_delete open_delete_user accounts_loaded trim
guest_can_be_deleted = refl

deleted_user-IsOther_example :
    (u : AppUser) × (deleted_user confirmed ≡ some u.user_id)
    × (is_text confirmed.my_user_id u.user_id ≡ false)
    × (text_eq (trim confirmed.delete_confirm) (trim (or_else u.email u.user_id)) ≡ true)
    × (confirmed.delete_loading ≡ false)
deleted_user-IsOther_example =
    deleted_user-IsOther as_typed confirmed
      (followed
        (followed (followed (begin console refl) (loaded (me ∷ guest ∷ [])))
          (opened guest guest_can_be_opened))
        (typed (codes " u2")))
      guest_can_be_deleted
