-- ===== src/Invoices.antt =====
-- Issued invoices: packages/core/src/modules/finance/settlement.ts, document-totals.ts and
-- deductions.ts. Amounts are whole numbers of minor units.
pub mod Lifecycle
pub mod Moves
pub mod Settlement
pub mod Totals
pub mod Deductions
