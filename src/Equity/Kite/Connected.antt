-- ===== src/Equity/Kite/Connected.antt =====
-- How a return from Zerodha ends.
use finance_buddy.Browser.{World, threw}
use finance_buddy.Equity.{SyncState, detail_or, kite_state_key, syncing}
use finance_buddy.Equity.Kite.{
  run_callback, kite_answered, read_state, clear_oauth_params, Callback, search_param, refused, ok,
  callback_with, stored_state, forget_state, kite_failed, kite_refetched, kite_done, is_cancelled,
  connected, is_covered, to_equity, failed_after, kite_connected,
}
use finance_buddy.Prelude.{
  Option, Text, false, lookup, none, some, ℕ, ◌≡◌, arith, or_else, refl, [], codes, eq_refl, erase,
  lookup-erase, ◌≢◌, ap, is_empty, ◌∙◌, ◌∷◌, true, truthy,
}
use finance_buddy.Store.{ParseData, set_session}

-- The state that the effect finds.
abbrev pub state_of : World → Text
state_of w =
    or_else (search_param "state" w) (stored_state (lookup kite_state_key w.session_storage))

pub read_state_lem : (w : World) → w.storage_blocked ≡ false → read_state w ≡ (ok (state_of w), w)
unfolding read_state
read_state_lem w o = ground arith

run_callback_lem :
    (k : Callback)
    → k.world.storage_blocked ≡ false
    → run_callback k ≡ callback_with (state_of k.world) k
unfolding run_callback
run_callback_lem k o = rw (read_state_lem k.world o) refl

-- Without a request token, with storage open, the effect does nothing.
runs_idle :
    (k : Callback)
    → k.world.storage_blocked ≡ false
    → search_param "request_token" k.world ≡ none
    → run_callback k ≡ (ok none, k)
unfolding run_callback read_state
runs_idle k o h = rw (run_callback_lem k o, callback_with) ground arith

pub cleared_token : (w : World) → search_param "request_token" (clear_oauth_params w) ≡ none
unfolding clear_oauth_params
cleared_token w = simp (lookup-erase, eq_refl)

abbrev without_key : World → World
without_key w = record w { session_storage = erase kite_state_key w.session_storage }

forget_state_lem :
    (k : Callback)
    → k.world.storage_blocked ≡ false
    → forget_state k ≡ (ok tt, record k { world = without_key k.world })
forget_state_lem k o = rw (forget_state, o) refl

abbrev failed_with : Option Text → Callback → Callback
failed_with detail k = record k {
  error = some (detail_or detail "Kite connect failed");
  sync = SyncState.idle;
  world = clear_oauth_params (without_key k.world);
}

kite_failed_lem :
    (detail : Option Text) (k : Callback)
    → k.world.storage_blocked ≡ false
    → kite_failed detail k ≡ failed_with detail k
kite_failed_lem detail k o = ap failed_after (forget_state_lem _ o)

-- With storage open, an answer that refuses leaves the store as it was, an error and the sign off,
-- no token in the address and no state in storage; the effect then does nothing.
pub refused_ends :
    (k : Callback) (now : ℕ) (detail : Option Text)
    → k.world.storage_blocked ≡ false
    → let k' = kite_answered now (refused detail) k in
      (k'.world.state ≡ k.world.state)
      × (k'.sync ≡ SyncState.idle)
      × (k'.error ≡ some (detail_or detail "Kite connect failed"))
      × (lookup kite_state_key k'.world.session_storage ≡ none)
      × (run_callback k' ≡ (ok none, k'))
unfolding kite_answered clear_oauth_params
refused_ends k now detail o = rw (kite_failed_lem detail k o) (
  refl,
  refl,
  refl,
  simp (lookup-erase, eq_refl),
  runs_idle (failed_with detail k) o (cleared_token (without_key k.world)),
)

not_empty : (s : Text) → s ≢ [] → is_empty s ≡ false
not_empty [] h = absurd (h refl)
not_empty (c ∷ s) h = refl

or_else-some : (s : Text) → s ≢ [] → or_else (some s) [] ≡ s
or_else-some [] h = absurd (h refl)
or_else-some (c ∷ s) h = refl

abbrev pub begun : Text → Callback → Callback
begun token k = record {
  attempt = some token;
  sync = syncing;
  error = none;
  world = to_equity k.world;
}

pub calls_once :
    (k : Callback) (token : Text)
    → k.world.storage_blocked ≡ false
    → k.attempt ≡ none
    → token ≢ []
    → state_of k.world ≢ []
    → search_param "request_token" k.world ≡ some token
    → search_param "action" k.world ≡ some (codes "login")
    → is_cancelled (search_param "status" k.world) ≡ false
    → run_callback k
      ≡ (ok (some (record { request_token = token; state = state_of k.world })), begun token k)
calls_once k token o a t s h l c =
    rw
      (
        run_callback_lem k o,
        callback_with,
        h,
        l,
        c,
        a,
        or_else-some token t,
        not_empty token t,
        not_empty (state_of k.world) s,
      )
      refl

to_equity-state :
    (w : World)
    → ((to_equity w).state ≡ w.state) × ((to_equity w).storage_blocked ≡ w.storage_blocked)
to_equity-state w = ground arith

connected_lem :
    (k : Callback) (now : ℕ) (id : Text) (parsed : Option ParseData)
    → k.world.storage_blocked ≡ false
    → kite_answered now (connected id parsed) k ≡ record k {
      world = record (without_key k.world) {
        state = set_session now id "equity" parsed k.world.state;
      };
    }
unfolding kite_answered
connected_lem k now id parsed o = ap (kite_connected now id parsed) (forget_state_lem k o)

-- A return from Zerodha that is answered: with storage open, a request token, the action "login", a
-- status that is no failure and a state, and no attempt before, the effect calls the server with the
-- two; after the answer, the refetch and the timer, the equity session is opened in the store, the
-- page is the equity overview with nothing over it, the state is forgotten, and the effect does
-- nothing more.
pub kite_connects :
    (k : Callback) (now : ℕ) (token id : Text) (parsed : Option ParseData)
    → k.world.storage_blocked ≡ false
    → k.attempt ≡ none
    → token ≢ []
    → state_of k.world ≢ []
    → search_param "request_token" k.world ≡ some token
    → search_param "action" k.world ≡ some (codes "login")
    → is_cancelled (search_param "status" k.world) ≡ false
    → let (r, k₁) = run_callback k in
      let k' = kite_done (kite_refetched (kite_answered now (connected id parsed) k₁)) in
      (r ≡ ok (some (record { request_token = token; state = state_of k.world })))
      × (k'.world.state ≡ set_session now id "equity" parsed k.world.state)
      × (k'.world.location.pathname ≡ codes "/equity/overview")
      × (is_covered k' ≡ false)
      × (lookup kite_state_key k'.world.session_storage ≡ none)
      × (run_callback k' ≡ (ok none, k'))
unfolding kite_refetched kite_done lookup
kite_connects k now token id parsed o a t s h l c =
    let k₁ = begun token k in
    let open' : k₁.world.storage_blocked ≡ false = (to_equity-state k.world).1 ∙ o in
    rw (calls_once k token o a t s h l c, connected_lem k₁ now id parsed open')
      (
        refl,
        rw (to_equity-state k.world).0 refl,
        refl,
        refl,
        simp (lookup-erase, eq_refl),
        runs_idle
            (kite_done (
              kite_refetched (record k₁ {
                world = record (without_key k₁.world) {
                  state = set_session now id "equity" parsed k₁.world.state;
                };
              })))
            open' refl,
      )

-- Where storage is blocked and the address has no state, the effect throws, whether or not there is
-- anything to connect.
pub blocked_effect_throws :
    (k : Callback)
    → k.world.storage_blocked ≡ true
    → truthy (search_param "state" k.world) ≡ false
    → (run_callback k).0 ≡ threw
unfolding run_callback read_state
blocked_effect_throws k b s = ground arith
