-- ===== src/Safety.antt =====
-- Safety events: events with their actions and attachments and the catalogue of classifications, of
-- apps/api/src/operations/operations.service.ts.
pub mod Types
pub mod Catalogue
pub mod Schema
pub mod Service
pub mod Requests
pub mod Life
pub mod Resolution
mod Tests
