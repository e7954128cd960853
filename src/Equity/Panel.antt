-- ===== src/Equity/Panel.antt =====
-- The upload panel, frontend/src/domains/equity/components/EquityUploadPanel.tsx: its files, the
-- broker's sessions, and the way to Zerodha's login. Handlers are cut at their awaits. A file is its
-- name; of an earlier session the id is kept.
pub mod Parked
use finance_buddy.Auth.PasswordSetup.{is_text}
use finance_buddy.Browser.{World, Result, Action, ok, pure, threw, set_item}
use finance_buddy.Equity.{syncing, success, SyncState, idle, kite_state_key}
use finance_buddy.Prelude.{
  Bool, List, Option, Text, [], codes, filter, if◌then◌else◌, none, not, some, text_eq, truthy, ℕ,
  ◌∷◌,
}
use finance_buddy.Store.{ParseData, given, set_session_by_id, set_session}

pub record Panel : Type 0 where
  pub world : World
  pub file : Option Text
  pub tradebook_file : Option Text
  pub sync : SyncState
  pub error : Option Text
  pub history : List Text

pub data ParseReply : Type 0 where
  parsed : Text → Option ParseData → ParseReply
  failed : Option Text → ParseReply

pub data LoginReply : Type 0 where
  login : (login_url state : Option Text) → LoginReply
  failed : Option Text → LoginReply

-- `fetchHistory`: whether it asks the server, and its answer, if there is one.
unfoldable pub fetches_history : Panel → Bool
fetches_history p = truthy p.world.state.user_id

unfoldable pub history_came : Option (List Text) → Panel → Panel
history_came none p = p
history_came (some history) p = record p { history = history }

abbrev pub closed_equity : ℕ → Text → World → World
closed_equity now sid w =
    if is_text w.state.equity_session_id sid
    then record w { state = set_session_by_id now [] "equity" w.state }
    else w

-- `handleDeleteSession`, once the server has deleted it; an error changes nothing.
unfoldable pub session_deleted : ℕ → Text → Panel → Panel
session_deleted now sid p = record p {
  history = filter (λ x. not (text_eq x sid)) p.history;
  world = closed_equity now sid p.world;
}

-- `handleDelete` and the choices of `SwitchEquityStatementButton`, on the world.
unfoldable pub switch_deleted : ℕ → Option Text → Text → World → World
switch_deleted now session sid w =
    if is_text session sid
    then record w { state = set_session_by_id now [] "equity" w.state }
    else w

unfoldable pub switch_selected : ℕ → Text → World → World
switch_selected now sid w = record w { state = set_session_by_id now sid "equity" w.state }

unfoldable pub connect_new : ℕ → World → World
connect_new now w = record w { state = set_session_by_id now [] "equity" w.state }

unfoldable pub on_drop_holdings : List Text → Panel → Panel
on_drop_holdings [] p = p
on_drop_holdings (f ∷ _) p = record p { file = some f; error = none }

unfoldable pub on_drop_tradebook : List Text → Panel → Panel
on_drop_tradebook [] p = p
on_drop_tradebook (f ∷ _) p = record p { tradebook_file = some f; error = none }

-- The reason is that of the first rejected file.
unfoldable pub on_rejected : Option Text → Panel → Panel
on_rejected reason p = record p {
  error = some (
      if is_text reason (codes "file-too-large")
      then codes "That file is larger than 8 MB. Export just your holdings or tradebook."
      else codes "Unsupported file. Upload a .csv or .xlsx export from your broker.");
}

-- `handleAnalyzeCSV`: the files that are sent, if any.
unfoldable pub analyze_start : Panel → Option (Text × Option Text) × Panel
analyze_start p = elim p.file [
  | none ↦ (none, record p { error = some (codes "Please select a Holdings CSV.") })
  | some f ↦ (some (f, p.tradebook_file), record p { sync = syncing; error = none })
]

unfoldable pub analyze_resume : ParseReply → Panel → Panel
analyze_resume (parsed id data') p = record p { sync = success }
analyze_resume (failed detail) p = record p {
  error = some (given detail (codes "Failed to parse the file. Please check the format."));
  sync = idle;
}

-- 1200 ms after it was parsed, and after the queries are fetched again.
unfoldable pub analyze_opens : ℕ → Text → Option ParseData → Panel → Panel
analyze_opens now id data' p = record p {
  world = record p.world { state = set_session now id "equity" data' p.world.state };
}

unfoldable pub analyze_ends : Panel → Panel
analyze_ends p = record p { file = none; tradebook_file = none }

-- `handleKiteLogin` up to its await.
unfoldable pub kite_login_start : Panel → Panel
kite_login_start p = record p { sync = syncing; error = none }

abbrev pub login_failed : Option Text → Panel → Panel
login_failed detail p = record p {
  error = some (
      given detail
        (codes "Could not initiate Kite connection. Is the API Key configured on backend?"));
  sync = idle;
}

-- `if (res.state) sessionStorage.setItem(KITE_STATE_KEY, res.state)`
abbrev pub park_state : Option Text → Action (Unit {0})
park_state none = pure tt
park_state (some []) = pure tt
park_state (some (c ∷ s)) = set_item kite_state_key (c ∷ s)

abbrev pub left_for : Text → Result (Unit {0}) × World → Panel → Option Text × Panel
left_for url (ok _, w) p = (some url, record p { world = w })
left_for url (threw, w) p = (none, login_failed none (record p { world = w }))

-- The rest of it: the address that the browser leaves for, if any.
unfoldable pub kite_login_resume : LoginReply → Panel → Option Text × Panel
kite_login_resume (failed detail) p = (none, login_failed detail p)
kite_login_resume (login none state) p = (none, p)
kite_login_resume (login (some []) state) p = (none, p)
kite_login_resume (login (some (c ∷ url)) state) p = left_for (c ∷ url) (park_state state p.world) p
