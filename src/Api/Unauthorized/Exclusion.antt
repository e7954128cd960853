-- ===== src/Api/Unauthorized/Exclusion.antt =====
-- Any number of failed responses, handled as they arrive and interleaved at the `await`.
use finance_buddy.Api.Unauthorized.{
  on_error_start, Handler, on_error_resume, Result, cleaning, ok, finished,
}
use finance_buddy.Auth.PasswordSetup.{clear_password_setup_required}
use finance_buddy.Auth.SignOut.{sign_out_start}
use finance_buddy.Browser.{World, Result, threw}
use finance_buddy.Prelude.{
  Bool, List, Option, [], arith, false, none, some, suc, true, ℕ, ◌++◌, ◌+◌, ◌∷◌, ◌≡◌, ◌≤◌,
}

pub record Machine : Type 0 where
  pub world : World
  pub handlers : List Handler

module _ (configured : Bool) where
  -- One step: a response fails, some handler that waits for `signOut` goes on, or other code changes
  -- the world and leaves `_handling401` alone, which no other code names.
  pub data Step (m : Machine) : Machine → Type 0 where
    fail :
        (status : Option ℕ)
        → Step m (record m {
          world = (on_error_start configured status m.world).1;
          handlers = (on_error_start configured status m.world).0 ∷ m.handlers;
        })
    finish :
        (before after : List Handler) (r : Result (Unit {0}))
        → m.handlers ≡ before ++ cleaning r ∷ after
        → Step m (record m {
          world = (on_error_resume r m.world).1;
          handlers = before ++ (on_error_resume r m.world).0 ∷ after;
        })
    other : (w : World) → w.handling_401 ≡ m.world.handling_401 → Step m (record m { world = w })

  pub data Reach (m : Machine) : Machine → Type 0 where
    here : Reach m m
    next : {n n' : Machine} → Reach m n → Step n n' → Reach m n'

abbrev pub cleaners : List Handler → ℕ
cleaners [] = 0
cleaners (cleaning r ∷ hs) = suc (cleaners hs)
cleaners (finished ∷ hs) = cleaners hs

abbrev pub held : Bool → ℕ
held true = 1
held false = 0

-- The lock is held exactly while one handler cleans up.
abbrev IsLocked : Machine → Type 0
IsLocked m = cleaners m.handlers ≡ held m.world.handling_401

cleaners-append : (hs ks : List Handler) → cleaners (hs ++ ks) ≡ cleaners hs + cleaners ks
cleaners-append [] ks = omega arith
cleaners-append (cleaning r ∷ hs) ks = omega (arith, cleaners-append hs ks)
cleaners-append (finished ∷ hs) ks = omega (arith, cleaners-append hs ks)

sign_out_start-handling_401 :
    (configured : Bool) (w : World) → (sign_out_start configured w).1.handling_401 ≡ w.handling_401
unfolding sign_out_start clear_password_setup_required
sign_out_start-handling_401 configured w = ground arith

fail-IsLocked :
    (configured : Bool) (status : Option ℕ) (m : Machine)
    → IsLocked m
    → cleaners ((on_error_start configured status m.world).0 ∷ m.handlers)
      ≡ held (on_error_start configured status m.world).1.handling_401
unfolding on_error_start
fail-IsLocked configured none m h = h
fail-IsLocked configured (some status) m h =
    ground
      (arith, sign_out_start-handling_401 configured (record (m.world) { handling_401 = true }))

finish-IsLocked :
    (before after : List Handler) (r : Result (Unit {0})) (w : World)
    → cleaners (before ++ cleaning r ∷ after) ≡ held w.handling_401
    → cleaners (before ++ (on_error_resume r w).0 ∷ after)
      ≡ held (on_error_resume r w).1.handling_401
unfolding on_error_resume
finish-IsLocked before after (ok done) w h = ground (
  arith,
  cleaners-append before (cleaning (ok done) ∷ after),
  cleaners-append before (finished ∷ after),
)
finish-IsLocked before after threw w h = ground (
  arith,
  cleaners-append before (cleaning threw ∷ after),
  cleaners-append before (finished ∷ after),
)

Step-IsLocked : {configured : Bool} {m n : Machine} → Step configured m n → IsLocked m → IsLocked n
Step-IsLocked {configured} {m} (fail status) h = fail-IsLocked configured status m h
Step-IsLocked {m} (finish before after r e) h = finish-IsLocked before after r m.world (rw e at h)
Step-IsLocked (other w e) h = rw e h

Reach-IsLocked :
    {configured : Bool} {m n : Machine} → IsLocked m → Reach configured m n → IsLocked n
Reach-IsLocked h here = h
Reach-IsLocked h (next r st) = Step-IsLocked st (Reach-IsLocked h r)

-- Start with no handler at work and the lock free, and let responses fail and their handlers
-- interleave in any order, with any other changes of the world in between: at any time at most one
-- handler cleans up, one does exactly while the lock is held, and when none is left the lock is
-- free.
pub on_error-exclusive :
    (configured : Bool) (m n : Machine)
    → m.handlers ≡ []
    → m.world.handling_401 ≡ false
    → Reach configured m n
    → (cleaners n.handlers ≤ 1) × (cleaners n.handlers ≡ held n.world.handling_401)
on_error-exclusive configured m n idle free r =
    let h : IsLocked n = Reach-IsLocked (rw (idle, free)) r in (ground arith, h)
