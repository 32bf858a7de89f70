-- ===== src/Tests.antt =====
-- Runs of the models at inputs that can be followed in the source, and the theorems at inputs
-- that meet their hypotheses.
mod Money
mod Pricing
mod Invoices
mod Work
mod Webhooks
mod Plans
mod Limits
mod Payments
mod Calendar
mod Rates
