-- ===== src/App/Setup/Done.antt =====
-- What comes of a submit.
use finance_buddy.App.{Mounted, ok, page, account_setup, navigate, shell}
use finance_buddy.App.Setup.{
  submit_start, PasswordAnswer, Setup, PanReply, pan_answered, SubmitError, handle_submit, saved,
  set_password, after_password, with_world, asked_password, after_start, is_pan, submitting,
  pan_value, pan_identity,
}
use finance_buddy.Auth.PasswordSetup.{clear_password_setup_required}
use finance_buddy.Auth.Token.{update_password, cache_of, unanswered}
use finance_buddy.Browser.{World, Result, threw}
use finance_buddy.Prelude.{
  Bool, Bool-cases, Option, Text, arith, false, inl, inr, is_none, none, some, ℕ, ◌≡◌, ◌⊎◌, ap,
  if◌then◌else◌, length, refl, subst, text_eq, trim, true, ◌∙◌, ◌∷◌, ◌≤◌, codes, ◌≢◌,
}
use finance_buddy.Store.{AppState, is_authenticated, set_identity, Status}

module _ (upper : Text → Text) (require_password require_pan : Bool) where
  submit_start-app : (s : Setup) → (submit_start upper require_password require_pan s).1.app ≡ s.app
  unfolding submit_start
  submit_start-app s = ground arith

  submit_start-error :
      (s : Setup) (pan : Text)
      → (submit_start upper require_password require_pan s).0 ≡ some pan
      → (submit_start upper require_password require_pan s).1.error ≡ none
  unfolding submit_start
  submit_start-error s pan h = ground arith

set_password-state :
    (read_exp : Text → Option ℕ) (a : PasswordAnswer) (password : Text) (w : World)
    → (set_password read_exp a password w).1.state ≡ w.state
unfolding update_password clear_password_setup_required cache_of
set_password-state read_exp a password w = ground arith

-- A state of the panel with no error, or over the application as it was.
abbrev Spares : Mounted → Setup → Type 0
Spares old s =
    (s.error ≡ none)
    ⊎ ((s.app.world.state ≡ old.world.state)
        × (s.app.needs_password_setup ≡ old.needs_password_setup))

module _ (require_password require_pan : Bool) (old : Mounted) where
  pan_answered-Spares :
      (shown : AppState) (reply : PanReply) (s : Setup)
      → s.error ≡ none
      → s.app.world.state ≡ old.world.state
      → s.app.needs_password_setup ≡ old.needs_password_setup
      → Spares old (pan_answered require_password require_pan shown reply s)
  pan_answered-Spares shown (PanReply.failed e) s n h f = inr (h, f)
  pan_answered-Spares shown (saved pan) s n h f = inl n

  after_password-Spares :
      (shown : AppState) (reply : PanReply) (e : SubmitError) (r : Result (Unit {0}) × World)
      (s : Setup)
      → s.error ≡ none
      → r.1.state ≡ old.world.state
      → s.app.needs_password_setup ≡ old.needs_password_setup
      → Spares old (after_password require_password require_pan shown reply e r s)
  after_password-Spares shown reply e (threw, w) s n h f = inr (h, f)
  after_password-Spares shown reply e (ok _, w) s n h f = elim (Bool-cases require_pan) [
    | inl b ↦ rw b (pan_answered-Spares shown reply (with_world w s) n h f)
    | inr b ↦ rw b (inl n)
  ]

asked_password-state :
    (read_exp : Text → Option ℕ) (require_password : Bool) (a : PasswordAnswer) (s : Setup)
    → (asked_password read_exp require_password a s).1.state ≡ s.app.world.state
asked_password-state read_exp false a s = refl
asked_password-state read_exp true a s = set_password-state read_exp a s.password s.app.world

after_start-Spares :
    (read_exp : Text → Option ℕ) (require_password require_pan : Bool) (a : PasswordAnswer)
    (reply : PanReply) (old : Mounted) (r : Option Text × Setup)
    → r.1.app ≡ old
    → ((pan : Text) → r.0 ≡ some pan → r.1.error ≡ none)
    → Spares old (after_start read_exp require_password require_pan a reply r)
after_start-Spares read_exp require_password require_pan a reply old (none, s) e n =
    inr (ap (λ m. m.world.state) e, ap (λ m. m.needs_password_setup) e)
after_start-Spares read_exp require_password require_pan a reply old (some pan, s) e n =
    after_password-Spares require_password require_pan old s.app.world.state reply a.failure
      (asked_password read_exp require_password a s) s (n pan refl)
      (asked_password-state read_exp require_password a s ∙ ap (λ m. m.world.state) e)
      (ap (λ m. m.needs_password_setup) e)

impossible : {P : Type 0} → true ≡ false → P
impossible e = ground arith

-- If a submit ends with an error, nobody's identity is changed, and a password that has to be chosen
-- still has to be.
pub error_keeps_setup :
    (read_exp : Text → Option ℕ) (upper : Text → Text) (require_password require_pan : Bool)
    (a : PasswordAnswer) (reply : PanReply) (s : Setup)
    → is_none (handle_submit read_exp upper require_password require_pan a reply s).error ≡ false
    → let s' = handle_submit read_exp upper require_password require_pan a reply s in
      (s'.app.world.state ≡ s.app.world.state)
      × (s'.app.needs_password_setup ≡ s.app.needs_password_setup)
unfolding handle_submit
error_keeps_setup read_exp upper require_password require_pan a reply s e =
    elim (after_start-Spares read_exp require_password require_pan a reply s.app
      (submit_start upper require_password require_pan s)
      (submit_start-app upper require_password require_pan s)
      (submit_start-error upper require_password require_pan s)) [
        | inl n ↦ impossible (subst (λ o. is_none o ≡ false) n e)
        | inr h ↦ h
      ]

-- What is typed is accepted.
abbrev pub IsTyped : (Text → Text) → Bool → Bool → Setup → Type 0
IsTyped upper require_password require_pan s =
    (require_password ≡ true
      → (8 ≤ length (trim s.password)) × (text_eq s.password s.confirm ≡ true))
    × (require_pan ≡ true → is_pan (upper (trim s.pan)) ≡ true)

submit_start-IsTyped :
    (upper : Text → Text) (require_password require_pan : Bool) (s : Setup)
    → IsTyped upper require_password require_pan s
    → submit_start upper require_password require_pan s
      ≡ submitting (pan_value upper require_password require_pan s) (record s { error = none })
unfolding submit_start is_pan
submit_start-IsTyped upper false false s h = refl
submit_start-IsTyped upper true false s h = ground (arith, h.0 refl)
submit_start-IsTyped upper false true s h = ground (arith, h.1 refl)
submit_start-IsTyped upper true true s h = ground (arith, h.0 refl, h.1 refl)

page_after_setup :
    (m m' : Mounted) (path : Text) (require_password require_pan : Bool) (d : ℕ) (pan : Text)
    → page m path ≡ account_setup require_password require_pan
    → m.world.state.status ≡ some Status.active
    → m'.resolving_session ≡ m.resolving_session
    → m'.needs_password_setup ≡ (if require_password then false else m.needs_password_setup)
    → m'.world.state ≡ (
        if require_pan
        then set_identity (pan_identity m.world.state (some (d ∷ pan))) m.world.state
        else m.world.state)
    → page m' path ≡ (if text_eq path (codes "/") then navigate "/dashboard" else shell)
unfolding page is_authenticated set_identity
page_after_setup m m' path require_password require_pan d pan p a r f s = ground arith

-- The provider takes the password and answers, and storage is open.
abbrev pub IsTaken : PasswordAnswer → Setup → Type 0
IsTaken a s = (a.accepted ≡ true) × (a.session ≢ unanswered) × (s.app.world.storage_blocked ≡ false)

set_password-ok :
    (read_exp : Text → Option ℕ) (a : PasswordAnswer) (s : Setup)
    → IsTaken a s
    → 8 ≤ length (trim s.password)
    → (set_password read_exp a s.password s.app.world).0 ≡ ok tt
unfolding update_password clear_password_setup_required cache_of
set_password-ok read_exp a s h l = ground (arith, h.0, h.1, h.2)

asked_password-ok :
    (read_exp : Text → Option ℕ) (upper : Text → Text) (require_password require_pan : Bool)
    (a : PasswordAnswer) (s : Setup)
    → IsTaken a s
    → IsTyped upper require_password require_pan s
    → (asked_password read_exp require_password a s).0 ≡ ok tt
asked_password-ok read_exp upper false require_pan a s h t = refl
asked_password-ok read_exp upper true require_pan a s h t =
    set_password-ok read_exp a s h (t.0 refl).0

-- What is left when the password is taken and the PAN is saved.
module _ (require_password require_pan : Bool) (shown : AppState) (pan : Text) (e : SubmitError)
    (s : Setup) where
  abbrev done : Result (Unit {0}) × World → Setup
  done r = after_password require_password require_pan shown (saved (some pan)) e r s

  done-fields :
      (r : Result (Unit {0}) × World)
      → r.0 ≡ ok tt
      → r.1.state ≡ shown
      → ((done r).app.resolving_session ≡ s.app.resolving_session)
        × ((done r).app.needs_password_setup
            ≡ (if require_password then false else s.app.needs_password_setup))
        × ((done r).app.world.state
            ≡ (if require_pan then set_identity (pan_identity shown (some pan)) shown else shown))
        × ((done r).error ≡ s.error)
        × ((done r).loading ≡ false)
  done-fields (threw, w) e h = ground (arith, e)
  done-fields (ok u, w) e h = elim (Bool-cases require_pan) [
    | inl b ↦ rw (b, h) (refl, refl, refl, refl, refl)
    | inr b ↦ rw b (refl, refl, h, refl, refl)
  ]

-- A setup that succeeds: with an active account whose setup panel is shown, if what is typed is
-- accepted, the provider takes the password and answers, storage is open and the server saves a PAN
-- that is not empty, then after the submit the panel shows no error and no loading sign, and the page
-- is the application, or from the root the way to it.
pub setup_opens :
    (read_exp : Text → Option ℕ) (upper : Text → Text) (require_password require_pan : Bool)
    (a : PasswordAnswer) (d : ℕ) (pan path : Text) (s : Setup)
    → page s.app path ≡ account_setup require_password require_pan
    → s.app.world.state.status ≡ some Status.active
    → IsTyped upper require_password require_pan s
    → IsTaken a s
    → let s' =
        handle_submit read_exp upper require_password require_pan a (saved (some (d ∷ pan))) s in
      (page s'.app path ≡ (if text_eq path (codes "/") then navigate "/dashboard" else shell))
      × (s'.error ≡ none)
      × (s'.loading ≡ false)
unfolding handle_submit
setup_opens read_exp upper require_password require_pan a d pan path s p c t k =
    let f =
      done-fields require_password require_pan s.app.world.state (d ∷ pan) a.failure s₁ r
        (asked_password-ok read_exp upper require_password require_pan a s₁ k t)
        (asked_password-state read_exp require_password a s₁) in
    rw (submit_start-IsTyped upper require_password require_pan s t) (
      page_after_setup s.app
          (done require_password require_pan s.app.world.state (d ∷ pan) a.failure s₁ r).app path
          require_password require_pan d pan p c f.0 f.1 f.2,
      f.3,
      f.4,
    )
  where
    s₁ : Setup
    s₁ = record s { error = none; loading = true }

    r : Result (Unit {0}) × World
    r = asked_password read_exp require_password a s₁
