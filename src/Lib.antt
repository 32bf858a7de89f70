-- ===== src/Lib.antt =====
-- Workloom runs an agency: quotes, projects, invoices, and the events that other systems hear of.
-- This library models the parts of packages/core/src and apps/worker/src that decide about money
-- and about deliveries, function by function, and proves what they promise.
--
-- The parts, and where each is modelled:
--
--   Base        names of the libraries passed on, the conditional and Boolean tests (Base/Tests),
--               lists indexed by native numbers (Base/Lists), thrown errors as results
--               (Base/Results), signed integers (Base/Int) and a JavaScript Map with string keys
--               in insertion order (Base/Dict).
--   Money       packages/core/src/money/money.ts: `roundDiv`, `floorDiv`, `multiplyByRational`,
--               `percentage` and `toSafeNumber` in Money.antt, `parseDecimal` and
--               `formatDecimal` in Money/Decimal, `convert` in Money/Convert, `apportion` and `allocate` in Money/Apportion
--               and its children; money/currency.ts in Money/Currency.
--   Pricing     packages/core/src/tax/calculate.ts, the one calculator of quotes and invoices:
--               its types and `price_line` in Pricing.antt, the discount and the tax groups in
--               Pricing/Document, `calculate` in Pricing/Calculate, and a module for each thing
--               that is proved of it.
--   Invoices    packages/core/src/modules/finance: settlement.ts (the status of an issued
--               invoice), document-totals.ts (the bottom line of a statement) and deductions.ts
--               (an earlier invoice taken off a later one); `invoiceSetDueDate`, `invoiceCancel`
--               and `recordInvoiceView` of invoices.ts in Invoices/Lifecycle, with what they leave
--               of the ledger in Invoices/Moves.
--   Payments    packages/core/src/modules/finance/payments.ts. Payments/Store has the tables of
--               packages/db/src/schema/finance.ts and the triggers of packages/db/src/migrations/
--               0016_payments_rls.sql that keep `amount_paid`, with those of 0044_books_lock_guards.sql
--               that refuse a write in closed books; Payments/Settle has
--               `settleInvoice` and `settleAll`, Payments/Allocate has `allocate`, Payments/Inputs
--               what the procedures take and are made of, and Payments/Handlers the procedures and
--               the nightly `markOverdueInvoices`. Payments/Ledger is the invariant of the tables;
--               Sums, Taken, Settled, Rows, Keeps and Procedures carry it through every write,
--               and Payments/Run through any sequence of requests. Payments/Fits and Guards are
--               about `allocate`, Looks and Overdue about the nightly scan, Kept and Undo about a
--               payment deleted again, and Again about an invoice settled twice.
--   Calendar    packages/core/src/time/index.ts (`addDays`) in Calendar.antt;
--               packages/core/src/modules/finance/recurrence.ts in Calendar/Recurrence;
--               packages/core/src/reports/fiscal.ts in Calendar/Fiscal, with its texts as dates in
--               Fiscal/Texts and Fiscal/Days; reports/period.ts and
--               reports/margin.ts in Calendar/Reports.
--   Rates       `resolveRates` and `applyFixedFee` of packages/core/src/time/index.ts and
--               packages/core/src/modules/time/rates.ts in Rates.antt, with the reading back of
--               what was set in Rates/Lookup.
--   Quotes      packages/core/src/modules/finance/quote-split.ts.
--   Projects    packages/core/src/modules/projects: contract.ts and scope-lines.ts in
--               Projects/Contract, billing-plan.ts in Projects/BillingPlan, with its sums in
--               Projects/PlanSums and what a plan comes to in Projects/PlanExact.
--   Webhooks    packages/core/src/webhooks/schedule.ts in Webhooks/Schedule; the rows of
--               packages/db/src/schema/events.ts in Webhooks/Tables; apps/worker/src/outbox/
--               deliver.ts (`claimDue`, `attempt`, `record`) in Webhooks/Deliver; the lease in
--               Webhooks/Lease; what a recording leaves in Webhooks/Outcome; the circuit breaker, with `webhookUpdate` and
--               `webhookDeliveryRetry` of packages/core/src/modules/webhooks.ts, in
--               Webhooks/Breaker.
--   Limits      packages/core/src/rate-limit.ts in Limits/Rate, and
--               packages/core/src/modules/support/sla.ts in Limits/Sla.
--   Tests       runs at concrete inputs, and each theorem at an input that meets its hypotheses.
--
-- How they meet: a payment's procedures settle the invoices by Invoices/Settlement and convert with
-- Money; the moves of Invoices act on the same tables, and a run takes all of them in any order.
-- Pricing calls Money for every product, quotient and split. A deduction is priced
-- again by Pricing, and its lines are what Invoices/Totals presents. The contracted value of
-- Projects/Contract is what Projects/BillingPlan draws against, with the percentages of Money. The
-- worker's steps meet in one set of tables; a run is a sequence of transactions in any order, and a
-- recording may act on a claim that has become stale.
--
-- How the code is read. A source name keeps its words: `deductionLinesFor` is `deduction_lines_for`.
-- The suffix Minor is left out of the names of amounts. A `bigint` is an integer without bounds. An
-- amount of type `number` is an integer too: what `toSafe` and `toSafeNumber` refuse is refused
-- here, and a sum that has no such test (in Invoices, Quotes and Projects) is taken to stay within
-- the safe integers, where the arithmetic of the source is exact. A `throw` is an `err` with the
-- error's code, field and line; messages are left out. A text that is parsed digit by digit is a
-- list of bytes, any other text a string of the library. A `Map` is a list of pairs in insertion
-- order. The percentages of a plan, which the source sums as floating-point numbers with a tolerance
-- of 0.0001, are units of 0.0001; where their sum is one unit off a hundred, rounding decides the
-- test of the source, and what it decides is an argument, `near`. The jitter of a retry is exact, in
-- the 2^53 values of `Math.random`. Dates and instants are texts `YYYY-MM-DD` or numbers of
-- milliseconds.
--
-- A calendar date `YYYY-MM-DD` is its year, month and day, and two dates compare as the numbers that
-- their digits spell; `Date` is the Gregorian calendar, and `Date.UTC` has the years from 0 to 99 in
-- the 1900s. A date past the year 9999 leaves that form in the source, and the model says nothing of
-- it. fiscal.ts writes its years without padding; the days of a financial year are texts here too,
-- which compare as dates where the years have four digits. A table whose rows are read by primary key is
-- a function, and a table that is summed or searched is a list. What a trigger or a constraint refuses
-- is one error, `database_error`, and `books_locked` where it is because the books are closed through
-- the day of the row (SQLSTATE WL001, which registry/execute.ts turns into a message); settling an
-- invoice casts its refunds to an `int`, and `database_error` is thrown where they do not fit. A
-- request runs in a transaction: where it throws, nothing of it stays. Ids and the clock are
-- arguments.
--
-- Loops are recursion on the list they run over. The loops of recurrence.ts run on the 1200 rounds
-- that the source itself gives them, and `unbilledPeriods` on the number of periods asked for, since a
-- round adds one or ends the loop. `fiscalYearsBetween` has a round for each year up to the last
-- and one more; where the years have four digits the loop ends in them, and where it does not end
-- there the result is none. The printing of a number runs on fuel: a
-- number n has at most n + 1 digits, and that is the fuel `to_text` gives.
--
-- Parameters: signing an event and sending the request, which return a signature or a message and a
-- result, are arguments of `attempt`. A transaction of the worker is one step, since the source runs
-- each under row locks. The register of bank lines, which the procedures of payments keep in step
-- (`resolveAccount`, `dropRecordedLine`, `syncPaymentLine`, and the trigger `payments_banked_guard`
-- of 0023_banking_rls.sql), is an interface, `BankRegister`, and what
-- is said of payments holds whatever it does. The tables of invoices and payments are those of one
-- organization; what the audit keeps is left out, and of an event its name and the id it is about are
-- kept.
--
-- Not modelled: the drafting and issuing of invoices and quotes, billing stages, banking, expenses,
-- document numbers, the other tables and their queries, the registry and its
-- schemas, permissions, authentication, time zones, the integrations, the web
-- application, e-mail, PDF, storage and the command line, which are input and output, calls of
-- libraries, or rules that stand in SQL.
pub mod Base
pub mod Calendar
pub mod Invoices
pub mod Limits
pub mod Money
pub mod Payments
pub mod Pricing
pub mod Projects
pub mod Quotes
pub mod Rates
pub mod Tests
pub mod Webhooks
