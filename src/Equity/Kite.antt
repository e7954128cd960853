-- ===== src/Equity/Kite.antt =====
-- The return from Zerodha's login, frontend/src/domains/equity/hooks/useKiteOAuthCallback.tsx: the
-- effect that reads the address, the call of `connectKite` with its answer, and the timer that ends
-- it. The effect may run any number of times in one mounting.
pub mod Attempt
pub mod Connected
pub mod Once
use finance_buddy.Auth.PasswordSetup.{is_text}
use finance_buddy.Browser.{World, Result, Action, remove_item, ok, get_item, threw, ◌>>=◌, pure}
use finance_buddy.Equity.{detail_or, success, idle, SyncState, kite_state_key, syncing}
use finance_buddy.Prelude.{
  Bool, Dict, Option, String, Text, [], codes, erase, if◌then◌else◌, is_empty, lookup, none, not,
  or_else, some, starts_with, true, truthy, ℕ, ◌&&◌, ◌||◌, ◌∷◌,
}
use finance_buddy.Store.{ParseData, set_session}

pub record Callback : Type 0 where
  pub world : World
  pub sync : SyncState
  pub error : Option Text
  pub attempt : Option Text

-- The answer to `connectKite`, of which the session and what the store reads are kept.
pub data KiteAnswer : Type 0 where
  connected : Text → Option ParseData → KiteAnswer
  refused : Option Text → KiteAnswer

-- What the effect calls the server with: a request token and a state.
pub record KiteCall : Type 0 where
  pub request_token : Text
  pub state : Text

abbrev pub search_param : String → World → Option Text
search_param key w = lookup key w.location.search

-- `clearOAuthParams`
unfoldable pub clear_oauth_params : World → World
clear_oauth_params w = record w {
  location = record w.location {
    search =
        erase "state" (erase "status" (erase "action" (erase "request_token" w.location.search)));
  };
}

-- `navigate(path, { replace: true })`, which drops the fragment.
abbrev pub navigate_to : String → Dict Text → World → World
navigate_to path search w = record w {
  location = record { pathname = codes path; search = search; hash = [] };
}

-- `urlParams.get('state') || sessionStorage.getItem(KITE_STATE_KEY) || ''`
abbrev pub stored_state : Option Text → Text
stored_state none = []
stored_state (some s) = s

unfoldable pub read_state : Action Text
read_state w = elim (search_param "state" w) [
  | some (c ∷ s) ↦ (ok (c ∷ s), w)
  | _ ↦ (get_item kite_state_key >>= λ stored. pure (stored_state stored)) w
]

abbrev forget_state : Callback → Result (Unit {0}) × Callback
forget_state k = let (r, w) = remove_item kite_state_key k.world in (r, record k { world = w })

abbrev no_call : Result (Unit {0}) → Result (Option KiteCall)
no_call (ok _) = ok none
no_call threw = threw

abbrev pub is_cancelled : Option Text → Bool
is_cancelled status = truthy status && not (is_text status (codes "success"))

abbrev to_equity : World → World
to_equity w =
    if starts_with w.location.pathname (codes "/equity")
    then w
    else navigate_to "/equity/overview" w.location.search w

-- The effect, once it has read the address: what it calls, if anything.
abbrev pub callback_with : Text → Callback → Result (Option KiteCall) × Callback
callback_with state k =
    let token = or_else (search_param "request_token" k.world) [] in
    if is_empty token || not (is_text (search_param "action" k.world) (codes "login"))
    then (ok none, k)
    else if is_cancelled (search_param "status" k.world)
    then (let (r, k') = forget_state (record k {
      error = some (codes "Zerodha login was cancelled or failed. Please try again.");
      world = clear_oauth_params k.world;
    }) in
        (no_call r, k'))
    else if is_text k.attempt token
    then (ok none, k)
    else if is_empty state
    then (
      ok none,
      record k {
        attempt = some token;
        error =
            some (
              codes "This Zerodha login could not be verified. Please start the connection again.");
        world = clear_oauth_params k.world;
      },
    )
    else (
      ok (some (record { request_token = token; state = state })),
      record { attempt = some token; sync = syncing; error = none; world = to_equity k.world },
    )

abbrev callback_after : Result Text × World → Callback → Result (Option KiteCall) × Callback
callback_after (ok state, w) k = callback_with state (record k { world = w })
callback_after (threw, w) k = (threw, record k { world = w })

unfoldable pub run_callback : Callback → Result (Option KiteCall) × Callback
unfolding clear_oauth_params read_state
run_callback k = callback_after (read_state k.world) k

-- The `catch` branch; if storage throws there, the rest of it does not run.
abbrev pub failed_after : Result (Unit {0}) × Callback → Callback
failed_after (ok _, k) = record k { world = clear_oauth_params k.world }
failed_after (threw, k) = k

abbrev pub kite_failed : Option Text → Callback → Callback
kite_failed detail k =
    failed_after (
      forget_state
        (record k { error = some (detail_or detail "Kite connect failed"); sync = idle }))

abbrev pub kite_connected : ℕ → Text → Option ParseData → Result (Unit {0}) × Callback → Callback
kite_connected now id parsed (ok _, k) = record k {
  world = record k.world { state = set_session now id "equity" parsed k.world.state };
}
kite_connected now id parsed (threw, k) = kite_failed none k

-- The answer, up to the await of the queries' refetch; what throws goes to the `catch` branch.
unfoldable pub kite_answered : ℕ → KiteAnswer → Callback → Callback
kite_answered now (refused detail) k = kite_failed detail k
kite_answered now (connected id parsed) k = kite_connected now id parsed (forget_state k)

-- The queries are fetched again, and 900 ms later.
unfoldable pub kite_refetched : Callback → Callback
kite_refetched k = record k { sync = success }

unfoldable pub kite_done : Callback → Callback
unfolding clear_oauth_params
kite_done k = record k {
  sync = idle;
  world = navigate_to "/equity/overview" [] (clear_oauth_params k.world);
}

-- Whether `KiteOAuthOverlay` covers the page.
abbrev pub is_covered : Callback → Bool
is_covered k = elim k.sync [ SyncState.idle ↦ truthy k.error | _ ↦ true ]
