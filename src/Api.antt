-- ===== src/Api.antt =====
-- The HTTP client, frontend/src/shared/api/client.ts: what is attached to a request, and what is
-- done when a response is refused.
pub mod Request
pub mod MutualFunds
pub mod Tax
pub mod Equity
pub mod Budget
pub mod Admin
pub mod Unauthorized
