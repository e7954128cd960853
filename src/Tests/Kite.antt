-- ===== src/Tests/Kite.antt =====
-- A return from Zerodha, and the panel that leads there.
use finance_buddy.Browser.{World, threw, ok}
use finance_buddy.Equity.{kite_state_key, SyncState, detail_or}
use finance_buddy.Equity.Kite.{
  Callback, run_callback, kite_answered, kite_done, refused, KiteCall, read_state, kite_refetched,
  clear_oauth_params, connected, is_covered,
}
use finance_buddy.Equity.Kite.Attempt.{called}
use finance_buddy.Equity.Kite.Connected.{
  blocked_effect_throws, state_of, refused_ends, kite_connects,
}
use finance_buddy.Equity.Kite.Once.{token_is_used_once, and_then, here, running, answered}
use finance_buddy.Equity.Panel.{Panel, kite_login_resume, login}
use finance_buddy.Equity.Panel.Parked.{parked_state_is_used}
use finance_buddy.Prelude.{
  All, List, [], codes, false, length, lookup, none, refl, some, true, ◌∷◌, ◌≡◌, ◌≤◌,
}
use finance_buddy.Store.{set_session}
use finance_buddy.Tests.Samples.{browser, signed_in}

abbrev returned : World
returned = record browser {
  session_storage = (kite_state_key, codes "st") ∷ [];
  location = record {
    pathname = codes "/dashboard";
    search = ("request_token", codes "rt") ∷ ("action", codes "login") ∷ [];
    hash = [];
  };
}

abbrev fresh : Callback
fresh = record { world = returned; sync = SyncState.idle; error = none; attempt = none }

abbrev panel : Panel
panel = record {
  world = browser;
  file = none;
  tradebook_file = none;
  sync = SyncState.idle;
  error = none;
  history = [];
}

abbrev returned_with_parked : World
returned_with_parked = record returned {
  session_storage =
      (kite_login_resume (login (some (codes "z")) (some (codes "st")))
        panel).1.world.session_storage;
}

kite_connects_example :
    let (r, k₁) = run_callback fresh in
    let k' = kite_done (kite_refetched (kite_answered 7 (connected (codes "e1") none) k₁)) in
    (r ≡ ok (some (record { request_token = codes "rt"; state = state_of returned })))
    × (k'.world.state ≡ set_session 7 (codes "e1") "equity" none signed_in)
    × (k'.world.location.pathname ≡ codes "/equity/overview")
    × (is_covered k' ≡ false)
    × (lookup kite_state_key k'.world.session_storage ≡ none)
    × (run_callback k' ≡ (ok none, k'))
unfolding lookup
kite_connects_example =
    kite_connects fresh 7 (codes "rt") (codes "e1") none refl refl (λ e. cc) (λ e. cc) refl refl
      refl

refused_ends_test :
    let k' = kite_answered 7 (refused (some (codes "No."))) fresh in
    (k'.world.state ≡ signed_in)
    × (k'.sync ≡ SyncState.idle)
    × (k'.error ≡ some (detail_or (some (codes "No.")) "Kite connect failed"))
    × (lookup kite_state_key k'.world.session_storage ≡ none)
    × (run_callback k' ≡ (ok none, k'))
refused_ends_test = refused_ends fresh 7 (some (codes "No.")) refl

-- The effect runs twice, and the server answers.
abbrev twice : Callback × List KiteCall
twice =
    let (r, k₁) = run_callback fresh in
    let (r', k₂) = run_callback k₁ in (kite_answered 7 (refused none) k₂, called r' (called r []))

twice_test : length twice.1 ≡ 1
unfolding run_callback read_state lookup clear_oauth_params
twice_test = refl

token_is_used_once_example : (length twice.1 ≤ 1) × All (λ c. c.request_token ≡ codes "rt") twice.1
unfolding lookup
token_is_used_once_example =
    token_is_used_once (codes "rt") refl refl
      (and_then (and_then (and_then here running) running) (answered 7 (refused none)))

parked_state_is_used_example :
    ((kite_login_resume (login (some (codes "z")) (some (codes "st"))) panel).0 ≡ some (codes "z"))
    × ((run_callback (record fresh { world = returned_with_parked })).0
        ≡ ok (some (record { request_token = codes "rt"; state = codes "st" })))
unfolding lookup
parked_state_is_used_example =
    parked_state_is_used panel (record fresh { world = returned_with_parked }) (codes "z")
      (codes "st") (codes "rt") refl (λ e. cc) (λ e. cc) refl refl refl (λ e. cc) refl refl refl
      refl

blocked_effect_throws_test :
    (run_callback (record fresh { world = record returned { storage_blocked = true } })).0 ≡ threw
unfolding lookup
blocked_effect_throws_test =
    blocked_effect_throws (record fresh { world = record returned { storage_blocked = true } }) refl
      refl
