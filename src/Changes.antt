-- ===== src/Changes.antt =====
-- Management of change: the change requests of apps/api/src/operations/operations.service.ts with
-- their risks, approvals, evidence and workflow steps.
pub mod Types
pub mod Schema
pub mod Rows
pub mod Service
pub mod Stages
pub mod Invariant
pub mod Histories
pub mod RowSteps
pub mod Versions
pub mod Decisions
pub mod Governance
pub mod Marks
pub mod Passes
pub mod Journey
pub mod Records
mod Tests
