-- ===== src/Webhooks.antt =====
-- The delivery of webhooks: packages/core/src/webhooks/schedule.ts, apps/worker/src/outbox/deliver.ts
-- and the operations on deliveries and endpoints of packages/core/src/modules/webhooks.ts.
pub mod Schedule
pub mod Tables
pub mod Deliver
pub mod Lease
pub mod Breaker
pub mod Outcome
