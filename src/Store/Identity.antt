-- ===== src/Store/Identity.antt =====
-- Who is signed in: the identity actions of appStore.ts, and what they leave behind.
use finance_buddy.Prelude.{ℕ, ◌≡◌, refl, Option, none, some, false}
use finance_buddy.Store.{
  AppState, IdentityUpdate, given, set_identity, clear_identity, reset_on_logout, partialize,
  is_authenticated,
}

-- `u` where it gives a value, `v` elsewhere.
abbrev pub later {ℓ} : {A : Type ℓ} → Option A → Option A → Option A
later none v = v
later (some x) v = some x

abbrev pub both_updates : IdentityUpdate → IdentityUpdate → IdentityUpdate
both_updates u v = record {
  user_id = u.user_id;
  email = later u.email v.email;
  display_name = later u.display_name v.display_name;
  pan = later u.pan v.pan;
  status = later u.status v.status;
  role = later u.role v.role;
}

given-later {ℓ} : {A : Type ℓ} (u v : Option A) (d : A) → given u (given v d) ≡ given (later u v) d
given-later none v d = refl
given-later (some x) v d = refl

-- Two identity updates in a row are one update: a field that the second leaves undefined keeps
-- what the first wrote, a field that it sets to a value or to null overwrites it, and the account
-- id is always the second's.
set_identity_compose :
    (u v : IdentityUpdate) (s : AppState)
    → set_identity u (set_identity v s) ≡ set_identity (both_updates u v) s
unfolding set_identity
set_identity_compose u v s = simp (given-later)

-- Clearing the identity forgets all that signing in and opening the sessions of the account wrote:
-- after it the store is the same whichever account was signed in, and nobody is.
clear_identity-set_identity :
    (u : IdentityUpdate) (s : AppState)
    → (clear_identity (set_identity u s) ≡ clear_identity s)
      × (is_authenticated (clear_identity (set_identity u s)) ≡ false)
unfolding clear_identity set_identity is_authenticated
clear_identity-set_identity u s = (refl, refl)

-- What logging out writes to local storage is the same for any two states, and of the store itself
-- only the tax slab and the module on show are left: two states that agree on these are equal
-- after it.
pub reset_on_logout_forgets :
    (now : ℕ) (s t : AppState)
    → s.tax_slab ≡ t.tax_slab
    → s.active_module ≡ t.active_module
    → (partialize (reset_on_logout now s) ≡ partialize (reset_on_logout now t))
      × (reset_on_logout now s ≡ reset_on_logout now t)
unfolding reset_on_logout partialize
reset_on_logout_forgets now s t slab on_show = (refl, cc)
