-- ===== src/App/Pages.antt =====
-- Which page a user sees.
-- The application itself is shown exactly when the session is resolved, somebody is signed in whose
-- account is active, the PAN is set, no password has to be chosen, and the path is not the root.
use finance_buddy.App.{page, Mounted, shell, tab_fallback, landing, navigate}
use finance_buddy.Prelude.{
  Text, arith, codes, false, if◌then◌else◌, some, text_eq, true, truthy, ◌↔◌, ◌≡◌,
}
use finance_buddy.Store.{is_authenticated, active}

pub page-shell_iff :
    (m : Mounted) (path : Text)
    → (page m path ≡ shell) ↔ (
        (m.resolving_session ≡ false)
        × (is_authenticated m.world.state ≡ true)
        × (m.world.state.status ≡ some active)
        × (truthy m.world.state.pan ≡ true)
        × (m.needs_password_setup ≡ false)
        × (text_eq path (codes "/") ≡ false))
unfolding page
page-shell_iff m path = (λ h. ground arith, λ h. ground arith)

-- A user who is not signed in sees the fallback while the session is being resolved, and then the
-- landing page at the root and a redirect to it anywhere else.
page-signed_out :
    (m : Mounted) (path : Text)
    → is_authenticated m.world.state ≡ false
    → page m path ≡ (
        if m.resolving_session
        then tab_fallback
        else if text_eq path (codes "/")
        then landing
        else navigate "/")
unfolding page
page-signed_out m path out = ground arith
