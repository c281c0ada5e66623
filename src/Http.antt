-- ===== src/Http.antt =====
-- Requests of the API: the routes of the controllers and the guards before their handlers.
pub mod Types
pub mod Guards
pub mod Routes
pub mod Access
mod Tests
