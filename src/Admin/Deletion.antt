-- ===== src/Admin/Deletion.antt =====
-- Who can be deleted. `Step` lists what the screen offers, and what the server answers.
use finance_buddy.Admin.{
  Console, open_delete_user, AppUser, can_open, can_delete, delete_start, delete_answered,
  accounts_loaded, UserStatus, set_draft_status, UserRole, set_draft_role, save_start,
  save_answered, save_account, deleted_user, delete_ended,
}
use finance_buddy.Auth.PasswordSetup.{is_text}
use finance_buddy.Prelude.{
  Bool, List, Text, false, none, some, true, ◌≡◌, Bool-cases, Option-cases, arith, inl, inr,
  is_none, not, or_else, refl, text_eq, trim, ◌||◌,
}

pub data Step (lower : Text → Text) : Console → Console → Type 0 where
  opened : {s : Console} (u : AppUser) → can_open u s ≡ true → Step lower s (open_delete_user u s)
  typed : {s : Console} (t : Text) → Step lower s (record s { delete_confirm = t })
  dismissed :
      {s : Console} → s.delete_loading ≡ false → Step lower s (record s { delete_target = none })
  pressed : {s : Console} → can_delete lower s ≡ true → Step lower s (delete_start s)
  answered :
      {s : Console} (fine : Bool) → s.delete_loading ≡ true → Step lower s (delete_answered fine s)
  ended : {s : Console} → s.delete_loading ≡ true → Step lower s (delete_ended s)
  loaded : {s : Console} (list : List AppUser) → Step lower s (accounts_loaded list s)
  drafted_status :
      {s : Console} (id : Text) (st : UserStatus) → Step lower s (set_draft_status id st s)
  drafted_role : {s : Console} (id : Text) (r : UserRole) → Step lower s (set_draft_role id r s)
  saved : {s : Console} (id : Text) → Step lower s (save_start id s)
  save_ended : {s : Console} → Step lower s (save_answered s)

pub data Reach (lower : Text → Text) : Console → Type 0 where
  begin : (s : Console) → s.delete_target ≡ none → Reach lower s
  followed : {s s' : Console} → Reach lower s → Step lower s s' → Reach lower s'

-- The account in the dialog is not the user's own.
abbrev pub IsOther : Console → Type 0
IsOther s = (u : AppUser) → s.delete_target ≡ some u → is_text s.my_user_id u.user_id ≡ false

not_mine : (saving loading mine : Bool) → not (saving || loading || mine) ≡ true → mine ≡ false
not_mine saving loading mine h = ground arith

Step-IsOther : (lower : Text → Text) {s s' : Console} → Step lower s s' → IsOther s → IsOther s'
unfolding open_delete_user can_open delete_start delete_ended delete_answered accounts_loaded
    set_draft_status set_draft_role save_start save_answered
Step-IsOther lower (opened {s} u c) h v e =
    let n =
      not_mine (is_text s.saving_user_id u.user_id) s.delete_loading
        (is_text s.my_user_id u.user_id) c in
    cc
Step-IsOther lower (typed t) h v e = h v e
Step-IsOther lower (dismissed c) h v e = cc
Step-IsOther lower (pressed {s} c) h v e = elim (Bool-cases (is_none s.delete_target)) [
  | inl k ↦ rw k (h v (rw k at e))
  | inr k ↦ rw k (h v (rw k at e))
]
Step-IsOther lower (answered true c) h v e = cc
Step-IsOther lower (answered false c) h v e = h v e
Step-IsOther lower (ended c) h v e = h v e
Step-IsOther lower (loaded list) h v e = h v e
Step-IsOther lower (drafted_status id st) h v e = h v e
Step-IsOther lower (drafted_role id r) h v e = h v e
Step-IsOther lower (saved {s} id) h v e = elim (Bool-cases (is_none (save_account id s))) [
  | inl k ↦ rw k (h v (rw k at e))
  | inr k ↦ rw k (h v (rw k at e))
]
Step-IsOther lower save_ended h v e = h v e

Reach-IsOther : (lower : Text → Text) (s : Console) → Reach lower s → IsOther s
Reach-IsOther lower s (begin s' e) v t = cc
Reach-IsOther lower s (followed {s = r} p q) v t =
    Step-IsOther lower q (Reach-IsOther lower r p) v t

-- From a console with no dialog open, whatever happens: when the button of the dialog is enabled, what
-- is asked to be deleted is one account, not the user's own, and what is typed is its email, or its id
-- if it has none, up to case and white space at the ends.
pub deleted_user-IsOther :
    (lower : Text → Text) (s : Console)
    → Reach lower s
    → can_delete lower s ≡ true
    → (u : AppUser) × (deleted_user s ≡ some u.user_id)
      × (is_text s.my_user_id u.user_id ≡ false)
      × (text_eq (lower (trim s.delete_confirm)) (lower (trim (or_else u.email u.user_id))) ≡ true)
      × (s.delete_loading ≡ false)
unfolding can_delete deleted_user
deleted_user-IsOther lower s r h = elim (Option-cases s.delete_target) [
  | inl e ↦ cc (rw e at h)
  | inr (u, e) ↦
      let h' = rw e at h in (u, rw e refl, Reach-IsOther lower s r u e, ground arith, ground arith)
]
