-- ===== src/Auth.antt =====
-- Signing in and out, frontend/src/shared/auth: authClient.ts (`Token`, `PasswordSetup`,
-- `SignOut`) and authNotice.ts.
pub mod PasswordSetup
pub mod Messages
pub mod Access
pub mod Notice
pub mod SignOut
pub mod Token
