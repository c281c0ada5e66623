-- ===== src/Contracts.antt =====
-- packages/contracts/src/index.ts: roles, capabilities and the table that joins them; and the two
-- guards of apps/api/src/identity that read it.
pub mod Roles
pub mod Guards
