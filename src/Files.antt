-- ===== src/Files.antt =====
-- Files: the upload of apps/api/src/operations/operations.service.ts, the tests on a file's bytes of
-- apps/api/src/platform/storage/file-content-validation.ts, and the clean-up of the worker.
pub mod Types
pub mod Contents
pub mod Service
pub mod Steps
pub mod Checks
pub mod Kept
pub mod Invariant
pub mod Sound
pub mod Entries
pub mod Checked
pub mod Moves
pub mod Final
mod Tests
