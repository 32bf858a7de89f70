-- ===== src/Payments.antt =====
-- packages/core/src/modules/finance/payments.ts: money received and given back, what it is put
-- against, and what that makes of the invoices.
pub mod Store
pub mod Taken
pub mod Sums
pub mod Settle
pub mod Settled
pub mod Ledger
pub mod Rows
pub mod Allocate
pub mod Inputs
pub mod Handlers
pub mod Keeps
pub mod Procedures
pub mod Run
pub mod Fits
pub mod Guards
pub mod Looks
pub mod Overdue
pub mod Kept
pub mod Undo
pub mod Again
