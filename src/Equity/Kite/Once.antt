-- ===== src/Equity/Kite/Once.antt =====
-- How often a request token is used: it can be exchanged once, and the effect may run many times.
use finance_buddy.Browser.{World, Result, ok, threw}
use finance_buddy.Equity.{detail_or, SyncState}
use finance_buddy.Equity.Kite.{
  Callback, kite_answered, run_callback, KiteCall, KiteAnswer, kite_refetched, clear_oauth_params,
  kite_done, search_param, failed_after, forget_state, kite_failed, kite_connected, refused,
  read_state, connected,
}
use finance_buddy.Equity.Kite.Attempt.{
  HasToken, called, IsOnce, callback-IsOnce, forget_state-kept, read_state-kept,
}
use finance_buddy.Equity.Kite.Connected.{cleared_token}
use finance_buddy.Prelude.{
  All, List, Option, Text, [], arith, inl, inr, length, lookup, none, refl, some, subst, sym, ℕ,
  ◌≡◌, ◌≤◌, ◌⊎◌,
}
use finance_buddy.Store.{ParseData}

-- What may happen in one mounting. The rest of the program changes the world, but puts no token in
-- the address: the redirect of the broker mounts everything anew.
pub data Step : Callback × List KiteCall → Callback × List KiteCall → Type 0 where
  running :
      {k : Callback} {calls : List KiteCall}
      → Step (k, calls) ((run_callback k).1, called (run_callback k).0 calls)
  answered :
      {k : Callback} {calls : List KiteCall} (now : ℕ) (a : KiteAnswer)
      → Step (k, calls) (kite_answered now a k, calls)
  refetched : {k : Callback} {calls : List KiteCall} → Step (k, calls) (kite_refetched k, calls)
  timed : {k : Callback} {calls : List KiteCall} → Step (k, calls) (kite_done k, calls)
  dismissed :
      {k : Callback} {calls : List KiteCall} → Step (k, calls) (record k { error = none }, calls)
  elsewhere :
      {k : Callback} {calls : List KiteCall} (w : World)
      → (search_param "request_token" w ≡ none)
        ⊎ (search_param "request_token" w ≡ search_param "request_token" k.world)
      → Step (k, calls) (record k { world = w }, calls)

pub data Reach : Callback × List KiteCall → Callback × List KiteCall → Type 0 where
  here : {s : Callback × List KiteCall} → Reach s s
  and_then : {s t u : Callback × List KiteCall} → Reach s t → Step t u → Reach s u

module _ (token : Text) where
  HasToken-cleared : (w : World) → HasToken token (clear_oauth_params w)
  HasToken-cleared w = inl (cleared_token w)

  IsOnce-failed :
      (r : Result (Unit {0}) × Callback) (calls : List KiteCall)
      → IsOnce token r.1 calls
      → IsOnce token (failed_after r) calls
  IsOnce-failed (ok _, k) calls h = record { address = HasToken-cleared k.world; tried = h.tried }
  IsOnce-failed (threw, k) calls h = h

  IsOnce-forget :
      (k : Callback) (calls : List KiteCall)
      → IsOnce token k calls
      → IsOnce token (forget_state k).1 calls
  IsOnce-forget k calls h =
      let e = forget_state-kept token k in
      record {
        address = subst (λ l. HasToken token (record k.world { location = l })) (sym e.1) h.address;
        tried = rw e.0 h.tried;
      }

  IsOnce-kite_failed :
      (detail : Option Text) (k : Callback) (calls : List KiteCall)
      → IsOnce token k calls
      → IsOnce token (kite_failed detail k) calls
  IsOnce-kite_failed detail k calls h =
      IsOnce-failed (forget_state (failing detail k)) calls
        (IsOnce-forget (failing detail k) calls (record { address = h.address; tried = h.tried }))
    where
      failing : Option Text → Callback → Callback
      failing detail k = record k {
        error = some (detail_or detail "Kite connect failed");
        sync = SyncState.idle;
      }

  IsOnce-connected :
      (now : ℕ) (id : Text) (parsed : Option ParseData) (r : Result (Unit {0}) × Callback)
      (calls : List KiteCall)
      → IsOnce token r.1 calls
      → IsOnce token (kite_connected now id parsed r) calls
  IsOnce-connected now id parsed (ok _, k) calls h = record { address = h.address; tried = h.tried }
  IsOnce-connected now id parsed (threw, k) calls h = IsOnce-kite_failed none k calls h

  IsOnce-answered :
      (now : ℕ) (a : KiteAnswer) (k : Callback) (calls : List KiteCall)
      → IsOnce token k calls
      → IsOnce token (kite_answered now a k) calls
  unfolding kite_answered
  IsOnce-answered now (refused detail) k calls h = IsOnce-kite_failed detail k calls h
  IsOnce-answered now (connected id parsed) k calls h =
      IsOnce-connected now id parsed (forget_state k) calls (IsOnce-forget k calls h)

  IsOnce-Step :
      {s t : Callback × List KiteCall} → Step s t → IsOnce token s.0 s.1 → IsOnce token t.0 t.1
  unfolding run_callback kite_refetched kite_done lookup
  IsOnce-Step {s} running h =
      callback-IsOnce token s.0 s.1 (read_state s.0.world) (read_state-kept token s.0.world) h
  IsOnce-Step {s} (answered now a) h = IsOnce-answered now a s.0 s.1 h
  IsOnce-Step refetched h = record { address = h.address; tried = h.tried }
  IsOnce-Step timed h = record { address = inl refl; tried = h.tried }
  IsOnce-Step dismissed h = record { address = h.address; tried = h.tried }
  IsOnce-Step (elsewhere w (inl e)) h = record { address = inl e; tried = h.tried }
  IsOnce-Step (elsewhere w (inr e)) h = record { address = rw e h.address; tried = h.tried }

  IsOnce-Reach :
      {s t : Callback × List KiteCall} → Reach s t → IsOnce token s.0 s.1 → IsOnce token t.0 t.1
  IsOnce-Reach here h = h
  IsOnce-Reach (and_then r e) h = IsOnce-Step e (IsOnce-Reach r h)

calls_of :
    (token : Text) (k : Callback) (calls : List KiteCall)
    → IsOnce token k calls
    → (length calls ≤ 1) × All (λ c. c.request_token ≡ token) calls
calls_of token k calls h = elim h.tried [
  | inl (a, e) ↦ rw e (omega arith, tt)
  | inr (a, l, c) ↦ (l, c)
]

-- From a fresh mounting with a request token in the address, however often the effect runs and
-- whatever the server answers, the timer and the user do, and however the rest of the program
-- changes the world without putting a token in the address, at most one call to the server is made,
-- with that token.
pub token_is_used_once :
    {k k' : Callback} {calls : List KiteCall} (token : Text)
    → k.attempt ≡ none
    → search_param "request_token" k.world ≡ some token
    → Reach (k, []) (k', calls)
    → (length calls ≤ 1) × All (λ c. c.request_token ≡ token) calls
token_is_used_once {k} {k'} {calls} token a e r =
    calls_of token k' calls
      (IsOnce-Reach token r (record { address = inr e; tried = inl (a, refl) }))
