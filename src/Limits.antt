-- ===== src/Limits.antt =====
-- packages/core/src/rate-limit.ts (fixed-window rate limiting) and the clocks of
-- packages/core/src/modules/support/sla.ts. An instant is a number of milliseconds.
pub mod Rate
pub mod Sla
