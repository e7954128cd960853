-- ===== src/Admin/Invitations/Sent.antt =====
-- What an invitation holds.
use finance_buddy.Admin.Invitations.{invite_start, Desk, Invitation}
use finance_buddy.Prelude.{Text, false, is_empty, some, trim, ◌≡◌, arith}

-- The email of an invitation is what was typed, trimmed and in lower case, and not empty.
pub invitation-email :
    (lower : Text → Text) (s : Desk) (i : Invitation)
    → (invite_start lower s).0 ≡ some i
    → (is_empty i.email ≡ false) × (i.email ≡ lower (trim s.invite_email))
unfolding invite_start
invitation-email lower s i h = ground arith
