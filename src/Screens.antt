-- ===== src/Screens.antt =====
-- Dashboards, television displays and playlists, and their publication, of
-- apps/api/src/operations/operations.service.ts.
pub mod Widgets
pub mod Snapshots
pub mod Types
pub mod Schema
pub mod Dashboards
pub mod Displays
pub mod Playlists
pub mod Requests
pub mod Shown
pub mod Mirrors
pub mod Sanitized
mod Tests
