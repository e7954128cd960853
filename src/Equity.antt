-- ===== src/Equity.antt =====
-- The connection to a broker, frontend/src/domains/equity: what the upload panel and the handler of
-- the broker's redirect share.
pub mod Kite
pub mod Panel
use finance_buddy.Prelude.{Option, String, Text, codes, or_else}

pub data SyncState : Type 0 where
  idle syncing success : SyncState

-- `KITE_STATE_KEY`
abbrev pub kite_state_key : String
kite_state_key = "equity.kite.oauth.state"

-- `err?.response?.data?.detail || message`
abbrev pub detail_or : Option Text → String → Text
detail_or detail message = or_else detail (codes message)
