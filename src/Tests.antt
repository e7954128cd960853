-- ===== src/Tests.antt =====
-- Runs of the definitions at concrete inputs, and an instance of each theorem that has hypotheses.
mod Samples
mod Codec
mod Store
mod Sessions
mod App
mod Setup
mod Kite
mod Saved
mod Fmt
mod Messages
mod MoneyFlow
mod Accounts
mod Admin
mod Analyzer
mod Dashboard
mod Directory
mod Transactions
mod Statements
mod Stock
mod Queries
