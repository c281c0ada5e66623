-- ===== src/Accounts.antt =====
-- Accounts: the passwords of apps/api/src/identity/password.service.ts.
pub mod Passwords
pub mod Verified
mod Tests
