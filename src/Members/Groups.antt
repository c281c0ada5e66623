-- ===== src/Members/Groups.antt =====
-- Groups of members: `createGroup`, `updateGroup`, `replaceGroupMembers` and `deleteGroup` of
-- apps/api/src/organizations/organization-access.service.ts.
pub mod Service
pub mod Counting
pub mod Exact
mod Tests
