-- ===== src/Lib.antt =====
-- FinanceBuddy, the web client (frontend/src): signing in and out, the application store, the HTTP
-- client, the queries of the tabs, the stock analyzer, the connection to Zerodha, the statement
-- history, the budget dashboard, the admin console, amounts as texts and the choice of the page.
--
-- The parts and where they are:
-- - Prelude: shared names, lists, texts (JavaScript strings that are taken apart, as lists of UTF-16
--   code units) and dictionaries.
-- - Store: frontend/src/shared/store/appStore.ts. `AppState` has the fields of the source; each
--   action is a function on it (`set_identity`, `clear_session`, ...), `Date.now()` an argument.
-- - Browser: the state that the other parts share: the store, both storage areas, the address, the
--   token cache of authClient.ts and the flag `_handling401` of client.ts, with a monad of state
--   and exceptions. A write stays after a throw.
-- - Auth: frontend/src/shared/auth. `Token` is the access-token cache, `SignOut`, `PasswordSetup`,
--   `Access` and `Messages` are further functions of authClient.ts, `Notice` is authNotice.ts.
-- - Api: frontend/src/shared/api/client.ts. `Unauthorized` has the interceptors; `MutualFunds`,
--   `Tax`, `Equity`, `Budget` and `Admin` give the request that each method of `apiClient` makes.
-- - Admin: frontend/src/shared/components/admin/AdminConsole.tsx, its access requests, its accounts
--   with drafts and their deletion, and the guards of a purge. `Invitations` has the answers to
--   requests, the invitations and suspensions, `Ingest` the syncs, and `Directory` the searches for
--   schemes with their pages.
-- - Queries: the query hooks of frontend/src/domains/*/hooks and shared/hooks, each as the key, the
--   request and the condition that it hands to react-query; `Seen` and `Decode` say what is read of
--   a key, `Invalidation` has the filters that make the queries fetch again, and `BudgetFilters` the
--   parameters and errors of the budget.
-- - StockAnalyzer: frontend/src/domains/equity/hooks/useStockAnalyzerStore.ts, each action a function
--   on the state, and local storage where it is written. `Tab` has the requests of
--   frontend/src/domains/equity/components/tabs/StockAnalyzerTab.tsx over that store, `Charts` the
--   rows of its charts, and `Metrics` what is chosen there.
-- - Equity: `Kite` is frontend/src/domains/equity/hooks/useKiteOAuthCallback.tsx, the return from
--   Zerodha's login, and `Panel` is EquityUploadPanel.tsx in frontend/src/domains/equity/components,
--   which leads there.
-- - Statements: frontend/src/shared/components/dashboard/UploadHistory.tsx, its handlers, and in
--   `Ledger` the transactions between two statements by fund with the totals above them.
-- - Fmt: fmtInr, fmtPct and fmtNum of frontend/src/shared/utils/fmt.ts.
-- - Budget: frontend/src/domains/budget/components. `MoneyFlow` is dropCycles of MoneyFlowCard.tsx, its
--   two loops on fuel: one round for every node and edge, which is enough; `Plot` is sanitise.
--   `AccountForm` is the dialog of AccountsTab.tsx, `Transactions` the state of TransactionsTab.tsx,
--   with its handlers and effects in `Transactions.Events`, `Dashboard` the filters, uploads and
--   deletions of BudgetDashboard.tsx, and `Categories` its category card.
-- - Logout: the `logout` action, which goes through the client, the auth client and storage.
-- - App: frontend/src/App.tsx, the handler of sign-in events, the session check and the page.
--   `App.Setup` is frontend/src/shared/components/AccountSetupPrompt.tsx, which the page shows.
-- - Tests: runs at concrete inputs.
--
-- Asynchronous code is cut at its awaits: a function `f_start` runs up to the await and `f_resume`
-- from the answer on, so that other steps can stand between them. Where interleavings matter
-- (`Auth.Token.Steps`, `Api.Unauthorized.Exclusion`, `StockAnalyzer.Tab.Steps`, `Equity.Kite.Once`) a
-- relation `Step` lists what may happen next and `Reach` its sequences. Where a whole function is
-- given in one piece, nothing runs in between.
--
-- What is not implemented in the program is an argument: the provider's and the server's answers,
-- the reading of a token's `exp` claim, `toLowerCase` and `toUpperCase`, `encodeURIComponent`,
-- JSON with its round trip as a hypothesis where a theorem needs it, react-query's comparison
-- of a key filter with a key, of which `ComparesPrefix` says what is used, and its hash of a key,
-- which may forget of an object what `Queries.Seen` leaves out, the arithmetic of the charts, of
-- which `IsArithmetic` says what is used, that of the donut and of the ledger, of which no law is
-- used, and what the server answers for a stock, of which `IsAbout` stands for what it says of the
-- symbol asked for. Times, counts and percentages that are passed on are natural numbers. Fuel is
-- used in three places: the digits of a number take the number itself, one round to a digit, the
-- grouping of digits takes the number of digits, two of which go in a round, and dropCycles takes
-- what is said above.
--
-- Not modelled: the Python backend, rendering, react-query's cache and zustand's persistence, how
-- long an answer is kept, mutations other than by their requests, and the tabs that only show what
-- the server computed, and the other rules of display.
pub mod Prelude
pub mod Store
pub mod Browser
pub mod Auth
pub mod Api
pub mod Admin
pub mod Queries
pub mod Statements
pub mod StockAnalyzer
pub mod Equity
pub mod Fmt
pub mod Budget
pub mod Logout
pub mod App
mod Tests
