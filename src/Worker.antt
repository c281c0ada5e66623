-- ===== src/Worker.antt =====
-- The worker: apps/worker/src/kafka/outbox-dispatcher.service.ts.
pub mod Retry
pub mod Outbox
pub mod Batches
pub mod Webhooks
mod Tests
