-- ===== src/Store/Sessions.antt =====
-- Which analysis session is open in each domain: the session actions of appStore.ts.
use finance_buddy.Prelude.{
  ℕ, String, Text, ◌≡◌, ◌≢◌, Option, none, some, true, inl, inr, Bool-cases, arith, ◌==◌, eq_iff,
  if◌then◌else◌,
}
use finance_buddy.Store.{
  AppState, Module, mutual_funds, indian_stocks, tax_expert, ParseData, clears, set_active_module,
  set_session, set_session_by_id, clear_session, session_id, same_module,
}

-- The name under which a module's sessions are stored and cleared.
abbrev pub session_type : Module → String
session_type mutual_funds = "mutual_funds"
session_type tax_expert = "tax_expert"
session_type indian_stocks = "equity"

-- The session that is shown once the user has switched to a module.
abbrev pub session_in : Module → AppState → Option Text
session_in m s = session_id (set_active_module m s)

abbrev pub stored : Module → AppState → Option Text
stored mutual_funds s = s.mf_session_id
stored tax_expert s = s.tax_session_id
stored indian_stocks s = s.equity_session_id

same_module→eq : (a b : Module) → same_module a b ≡ true → a ≡ b
same_module→eq a b h = ground arith

pub session_in-eq-stored : (m : Module) (s : AppState) → session_in m s ≡ stored m s
unfolding session_id set_active_module
session_in-eq-stored m s = elim (Bool-cases (same_module s.active_module m)) [
  | inl same ↦ rw same (ground (arith, same_module→eq s.active_module m same))
  | inr other ↦ rw other (ground arith)
]

module _ (now : ℕ) (m : Module) (s : AppState) where
  -- Opening a session of some type, with or without its data, shows it in the module of that type,
  -- and every other module goes on showing the session that it had.
  pub session_in-set_session :
      (id : Text) (type : String) (parsed : Option ParseData)
      → (session_in m (set_session now id type parsed s)
          ≡ (if type == session_type m then some id else session_in m s))
        × (session_in m (set_session_by_id now id type s)
            ≡ (if type == session_type m then some id else session_in m s))
  unfolding set_session set_session_by_id
  session_in-set_session id type parsed = simp session_in-eq-stored (ground arith)

  -- Clearing with no type (undefined or the empty string) closes the session of every module;
  -- clearing a type closes the session of its module, and the other modules keep theirs.
  pub session_in-clear_session :
      (type : Option String)
      → session_in m (clear_session now type s)
        ≡ (if clears type (session_type m) then none else session_in m s)
  unfolding clear_session
  session_in-clear_session type = simp session_in-eq-stored (ground arith)

-- Clearing a type that is no session type, such as "indian_stocks", closes no session at all:
-- every module goes on showing the session that it had.
clear_session_unknown :
    (now : ℕ) (type : String) (m : Module) (s : AppState)
    → type ≢ ""
    → type ≢ "mutual_funds"
    → type ≢ "tax_expert"
    → type ≢ "equity"
    → session_in m (clear_session now (some type) s) ≡ session_in m s
clear_session_unknown now type m s e mf tax eq = rw (session_in-clear_session now m s (some type)) (
    ground (
      arith,
      eq_iff type "",
      eq_iff type "mutual_funds",
      eq_iff type "tax_expert",
      eq_iff type "equity",
    ))
