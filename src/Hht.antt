-- ===== src/Hht.antt =====
-- Worked hours (HHT): reporting windows, monthly reports of companies, late exceptions and the
-- publication of a period, of apps/api/src/operations/operations.service.ts.
pub mod Types
pub mod Schema
pub mod Service
pub mod Closing
pub mod Requests
pub mod Periods
pub mod Frozen
pub mod Published
pub mod Locked
mod Tests
