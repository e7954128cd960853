-- ===== src/Browser.antt =====
-- The browser around the program: the store, the two storage areas, the address bar, and the
-- module-level variables of authClient.ts and client.ts, as one state, with an exception monad
-- over it. Every access to storage throws when the user has blocked storage for the site.
use finance_buddy.Prelude.{
  ℕ, String, Text, Dict, lookup, insert, erase, Bool, Option, [], false, true,
}
use finance_buddy.Store.{AppState}

-- `_accessTokenCache`
pub record CachedToken : Type 0 where
  pub token : Text
  pub fresh_until : ℕ

-- `window.location`, its query and its fragment read by `URLSearchParams`.
pub record Location : Type 0 where
  pub pathname : Text
  pub search : Dict Text
  pub hash : Dict Text

pub record World : Type 0 where
  pub state : AppState
  pub local_storage : Dict Text
  pub session_storage : Dict Text
  pub storage_blocked : Bool
  pub location : Location
  pub cache : Option CachedToken
  pub handling_401 : Bool

pub data Result {ℓ} (A : Type ℓ) : Type ℓ where
  ok : A → Result A
  threw : Result A

abbrev pub Action : Type 0 → Type 0
Action A = World → Result A × World

module _ {A : Type 0} where
  abbrev pub pure : A → Action A
  pure a w = (ok a, w)

  abbrev pub throw : Action A
  throw w = (threw, w)

infixl 5 ◌>>=◌ ◌>>◌
abbrev pub ◌>>=◌ : {A B : Type 0} → Action A → (A → Action B) → Action B
◌>>=◌ m f w = let (r, w') = m w in elim r [ ok a ↦ f a w' | threw ↦ (threw, w') ]

abbrev pub ◌>>◌ : {A B : Type 0} → Action A → Action B → Action B
m >> k = m >>= λ _. k

-- `try { m } catch { }`
abbrev pub attempt : Action (Unit {0}) → World → World
attempt m w = (m w).1

abbrev pub modify : (World → World) → Action (Unit {0})
modify f w = (ok tt, f w)

abbrev pub gets : {A : Type 0} → (World → A) → Action A
gets f w = (ok (f w), w)

-- Storage access, which throws a `SecurityError` where storage is blocked.
abbrev pub unless_blocked : {A : Type 0} → Bool → A × World → World → Result A × World
unless_blocked true done w = (threw, w)
unless_blocked false (a, w') w = (ok a, w')

abbrev pub storage : {A : Type 0} → (World → A × World) → Action A
storage f w = unless_blocked w.storage_blocked (f w) w

abbrev pub get_item : String → Action (Option Text)
get_item key = storage λ w. (lookup key w.session_storage, w)

abbrev pub set_item : String → Text → Action (Unit {0})
set_item key value =
    storage λ w. (tt, record w { session_storage = insert key value w.session_storage })

abbrev pub remove_item : String → Action (Unit {0})
remove_item key = storage λ w. (tt, record w { session_storage = erase key w.session_storage })

-- `localStorage.removeItem(key)` and `sessionStorage.clear()`
abbrev pub remove_local : String → Action (Unit {0})
remove_local key = storage λ w. (tt, record w { local_storage = erase key w.local_storage })

abbrev pub clear_session_storage : Action (Unit {0})
clear_session_storage = storage λ w. (tt, record w { session_storage = [] })
