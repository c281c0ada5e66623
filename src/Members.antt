-- ===== src/Members.antt =====
-- Memberships and invitations of an organisation:
-- apps/api/src/organizations/organization-access.service.ts.
pub mod Service
pub mod Owners
pub mod Policy
pub mod Groups
mod Tests
