-- ===== src/Equity/Panel/Parked.antt =====
-- The state that is parked for the way back from Zerodha.
use finance_buddy.Equity.{syncing, kite_state_key}
use finance_buddy.Equity.Kite.{Callback, search_param, is_cancelled, run_callback}
use finance_buddy.Equity.Kite.Connected.{state_of, calls_once}
use finance_buddy.Equity.Panel.{Panel, kite_login_resume, kite_login_start, login, ok}
use finance_buddy.Prelude.{
  Option, Text, [], codes, false, none, refl, some, ◌≡◌, ◌≢◌, ap, eq_refl, insert, lookup-insert,
  subst, sym, ◌∙◌, ◌∷◌,
}

left_lem :
    (p : Panel) (url state : Text)
    → p.world.storage_blocked ≡ false
    → url ≢ []
    → state ≢ []
    → kite_login_resume (login (some url) (some state)) p ≡ (
      some url,
      record p {
        world = record p.world {
          session_storage = insert kite_state_key state p.world.session_storage;
        };
      },
    )
unfolding kite_login_resume
left_lem p [] state o u s = absurd (u refl)
left_lem p (c ∷ url) [] o u s = absurd (s refl)
left_lem p (c ∷ url) (d ∷ state) o u s = rw o refl

-- With storage open, the state that the server gives with its login address is what the effect sends
-- back with the request token, when Zerodha returns to a page of the same tab without a state.
pub parked_state_is_used :
    (p : Panel) (k : Callback) (url state token : Text)
    → p.world.storage_blocked ≡ false
    → url ≢ []
    → state ≢ []
    → k.world.session_storage
      ≡ (kite_login_resume (login (some url) (some state)) p).1.world.session_storage
    → k.world.storage_blocked ≡ false
    → k.attempt ≡ none
    → token ≢ []
    → search_param "state" k.world ≡ none
    → search_param "request_token" k.world ≡ some token
    → search_param "action" k.world ≡ some (codes "login")
    → is_cancelled (search_param "status" k.world) ≡ false
    → ((kite_login_resume (login (some url) (some state)) p).0 ≡ some url)
      × ((run_callback k).0 ≡ ok (some (record { request_token = token; state = state })))
parked_state_is_used p k url state token o u s e ok' a t n h l c =
    let parked : state_of k.world ≡ state =
      rw (n, e, ap (λ r. r.1.world.session_storage) (left_lem p url state o u s))
        (simp (lookup-insert, eq_refl)) in
    let sent = calls_once k token ok' a t (subst (λ x. x ≢ []) (sym parked) s) h l c in
    (
      ap (λ r. r.0) (left_lem p url state o u s),
      ap (λ r. r.0) sent ∙ ap (λ x. ok (some (record { request_token = token; state = x }))) parked,
    )

-- Without a login address the panel stays as it is, which is what it shows while it waits.
pub missing_address_waits :
    (p : Panel) (state : Option Text)
    → let (left, p') = kite_login_resume (login none state) (kite_login_start p) in
      (left ≡ none) × (p'.sync ≡ syncing) × (p'.error ≡ none)
unfolding kite_login_resume kite_login_start
missing_address_waits p state = (refl, refl, refl)
