-- ===== src/Equity/Kite/Attempt.antt =====
-- What one run of the effect does to the token in the address, the token that was tried, and the
-- calls that were made.
use finance_buddy.Auth.PasswordSetup.{is_text}
use finance_buddy.Browser.{Result, World, ok, threw}
use finance_buddy.Equity.Kite.{
  KiteCall, Callback, read_state, search_param, forget_state, clear_oauth_params, callback_after,
  no_call, to_equity, callback_with, is_cancelled,
}
use finance_buddy.Equity.Kite.Connected.{cleared_token}
use finance_buddy.Prelude.{
  All, Bool-cases, List, Option, Text, [], ap, arith, codes, false, inl, inr, is_empty, length,
  none, not, or_else, refl, some, subst, text_eq_refl, ◌||◌, ◌∙◌, ◌∷◌, ◌≡◌, ◌≤◌, ◌⊎◌,
}

-- The calls so far, the last first.
abbrev pub called : Result (Option KiteCall) → List KiteCall → List KiteCall
called (ok (some c)) calls = c ∷ calls
called _ calls = calls

module _ (token : Text) where
  abbrev pub HasToken : World → Type 0
  HasToken w =
      (search_param "request_token" w ≡ none) ⊎ (search_param "request_token" w ≡ some token)

  abbrev pub IsTried : Option Text → List KiteCall → Type 0
  IsTried attempt calls =
      ((attempt ≡ none) × (calls ≡ []))
      ⊎ ((attempt ≡ some token) × (length calls ≤ 1) × All (λ c. c.request_token ≡ token) calls)

  pub record IsOnce (k : Callback) (calls : List KiteCall) : Type 0 where
    pub address : HasToken k.world
    pub tried : IsTried k.attempt calls

  pub forget_state-kept :
      (k : Callback)
      → ((forget_state k).1.attempt ≡ k.attempt)
        × ((forget_state k).1.world.location ≡ k.world.location)
  forget_state-kept k = ground arith

  or_else-nil : (t : Text) → or_else (some t) [] ≡ t
  or_else-nil [] = refl
  or_else-nil (c ∷ t) = refl

  abbrev found : Callback → Text
  found k = or_else (search_param "request_token" k.world) []

  cancelled-IsOnce :
      (k : Callback) (calls : List KiteCall) (r : Result (Unit {0}) × Callback)
      → (search_param "request_token" r.1.world ≡ none)
      → r.1.attempt ≡ k.attempt
      → IsOnce k calls
      → IsOnce r.1 (called (no_call r.0) calls)
  cancelled-IsOnce k calls (ok _, k') n a h = record { address = inl n; tried = rw a h.tried }
  cancelled-IsOnce k calls (threw, k') n a h = record { address = inl n; tried = rw a h.tried }

  not_tried :
      (attempt : Option Text) (calls : List KiteCall)
      → is_text attempt token ≡ false
      → IsTried attempt calls
      → calls ≡ []
  not_tried attempt calls n (inl h) = h.1
  not_tried attempt calls n (inr h) = ground (arith, h.0, text_eq_refl token)

  to_equity-search :
      (w : World) → search_param "request_token" (to_equity w) ≡ search_param "request_token" w
  to_equity-search w = ground arith

  first_try : (t : Text) (calls : List KiteCall) → t ≡ token → calls ≡ [] → IsTried (some t) calls
  first_try t calls e n = inr (ap some e, rw n (omega arith), rw n tt)

  first_call :
      (t state : Text) (calls : List KiteCall)
      → t ≡ token
      → calls ≡ []
      → IsTried (some t) (record { request_token = t; state = state } ∷ calls)
  first_call t state calls e n = inr (ap some e, rw n (omega arith), rw n (e, tt))

  abbrev cancelled_of : Callback → Callback
  cancelled_of k = record k {
    error = some (codes "Zerodha login was cancelled or failed. Please try again.");
    world = clear_oauth_params k.world;
  }

  -- The effect with the token in the address.
  with_token :
      (state : Text) (k : Callback) (calls : List KiteCall)
      → search_param "request_token" k.world ≡ some token
      → IsOnce k calls
      → IsOnce (callback_with state k).1 (called (callback_with state k).0 calls)
  with_token state k calls e h =
      let same : found k ≡ token = rw e (or_else-nil token) in
      elim (Bool-cases
        (is_empty (found k) || not (is_text (search_param "action" k.world) (codes "login")))) [
          | inl b ↦ rw (callback_with, b) h
          | inr b ↦ elim (Bool-cases (is_cancelled (search_param "status" k.world))) [
            | inl c ↦
                rw (callback_with, b, c)
                  (cancelled-IsOnce k calls (forget_state (cancelled_of k))
                    (rw (forget_state-kept (cancelled_of k)).1 (cleared_token k.world))
                    (forget_state-kept (cancelled_of k)).0 h)
            | inr c ↦ elim (Bool-cases (is_text k.attempt (found k))) [
              | inl t ↦ rw (callback_with, b, c, t) h
              | inr t ↦ elim (Bool-cases (is_empty state)) [
                | inl n ↦
                    rw (callback_with, b, c, t, n)
                      (record {
                        address = inl (cleared_token k.world);
                        tried = first_try (found k) calls same (untried t same);
                      })
                | inr n ↦
                    rw (callback_with, b, c, t, n)
                      (record {
                        address = inr (to_equity-search k.world ∙ e);
                        tried = first_call (found k) state calls same (untried t same);
                      })
              ]
            ]
          ]
        ]
    where
      untried : is_text k.attempt (found k) ≡ false → found k ≡ token → calls ≡ []
      untried t same =
          not_tried k.attempt calls (subst (λ x. is_text k.attempt x ≡ false) same t) h.tried

  -- Without a token the effect calls nothing.
  without_token :
      (state : Text) (k : Callback)
      → search_param "request_token" k.world ≡ none
      → callback_with state k ≡ (ok none, k)
  without_token state k e = rw (callback_with, e) refl

  pub read_state-kept : (w : World) → (read_state w).1 ≡ w
  unfolding read_state
  read_state-kept w = ground arith

  pub callback-IsOnce :
      (k : Callback) (calls : List KiteCall) (r : Result Text × World)
      → r.1 ≡ k.world
      → IsOnce k calls
      → IsOnce (callback_after r k).1 (called (callback_after r k).0 calls)
  callback-IsOnce k calls (threw, w) e h = rw e h
  callback-IsOnce k calls (ok state, w) e h = rw e (elim h.address [
    | inl n ↦ rw (without_token state k n) h
    | inr n ↦ with_token state k calls n h
  ])
