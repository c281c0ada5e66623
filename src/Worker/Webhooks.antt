-- ===== src/Worker/Webhooks.antt =====
-- The delivery of webhooks: apps/worker/src/kafka/webhook-delivery-dispatcher.service.ts.
pub mod Masks
pub mod Addresses
pub mod Dotted
pub mod Public
pub mod Delivery
pub mod Ready
pub mod Reasons
pub mod Outcomes
mod Tests
