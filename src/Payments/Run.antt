-- ===== src/Payments/Run.antt =====
-- The procedures of packages/core/src/modules/finance/payments.ts, and those of invoices.ts beside it
-- that move an issued invoice, one after the other, each in the
-- transaction of its request: a call that throws changes nothing.
use workloom.Base.{◌≡◌, List, String, ℕ, ok}
use workloom.Payments.Store.{Store}
use workloom.Payments.Ledger.{IsLedger}
use workloom.Payments.Rows.{IsFresh}
use workloom.Payments.Settle.{Context}
use workloom.Payments.Allocate.{AllocationInput}
use workloom.Payments.Handlers.{
  mark_overdue_invoices, payment_record, payment_update, payment_delete, payment_allocate,
  payment_unallocate,
}
use workloom.Payments.Inputs.{BankRegister, Books, PaymentInput, PaymentPatch}
use workloom.Payments.Keeps.{mark_overdue_invoices-IsLedger}
use workloom.Money.Decimal.{Text}
use workloom.Invoices.Lifecycle.{invoice_set_due_date, invoice_cancel, record_invoice_view}
use workloom.Invoices.Moves.{
  invoice_set_due_date-IsLedger, invoice_cancel-IsLedger, record_invoice_view-IsLedger,
}
use workloom.Payments.Procedures.{
  payment_record-IsLedger, payment_update-IsLedger, payment_delete-IsLedger,
  payment_allocate-IsLedger, payment_unallocate-IsLedger,
}

-- A request that was served, from the books before it to those after it.
pub data Call {R : Type 0} (bank : BankRegister R) : Books R → Books R → Type 0 where
  recorded :
      (ctx : Context) (id : String) (new_ids : ℕ → String) (input : PaymentInput) (b c : Books R)
      → IsFresh id b.store
      → payment_record bank ctx id new_ids input b ≡ ok c
      → Call bank b c
  updated :
      (ctx : Context) (id : String) (patch : PaymentPatch) (b c : Books R)
      → payment_update bank ctx id patch b ≡ ok c
      → Call bank b c
  deleted :
      (ctx : Context) (id : String) (b c : Books R)
      → payment_delete bank ctx id b ≡ ok c
      → Call bank b c
  allocated :
      (ctx : Context) (new_id id : String) (request : AllocationInput) (b c : Books R)
      → payment_allocate bank ctx new_id id request b ≡ ok c
      → Call bank b c
  unallocated :
      (ctx : Context) (id : String) (b c : Books R)
      → payment_unallocate bank ctx id b ≡ ok c
      → Call bank b c
  marked_overdue :
      (ctx : Context) (rows : List String) (b : Books R) (t : Store)
      → mark_overdue_invoices ctx rows b.store ≡ ok t
      → Call bank b (record b { store = t })
  cancelled_one :
      (id : String) (b : Books R) (t : Store)
      → invoice_cancel id b.store ≡ ok t
      → Call bank b (record b { store = t })
  looked_at :
      (id : String) (b : Books R) (t : Store)
      → record_invoice_view id b.store ≡ ok t
      → Call bank b (record b { store = t })
  dated :
      (id : String) (due : Text) (b : Books R) (t : Store)
      → invoice_set_due_date id due b.store ≡ ok t
      → Call bank b (record b { store = t })

-- The books that some requests lead to.
pub data Reached {R : Type 0} (bank : BankRegister R) (b : Books R) : Books R → Type 0 where
  at_first : Reached bank b b
  after : (c d : Books R) → Reached bank b c → Call bank c d → Reached bank b d

Call-IsLedger :
    {R : Type 0} (bank : BankRegister R) (b c : Books R)
    → Call bank b c
    → IsLedger b.store
    → IsLedger c.store
Call-IsLedger bank _ _ (recorded ctx id new_ids input b c fresh h) l =
    payment_record-IsLedger bank ctx id new_ids input b c h fresh l
Call-IsLedger bank _ _ (updated ctx id patch b c h) l =
    payment_update-IsLedger bank ctx id patch b c h l
Call-IsLedger bank _ _ (deleted ctx id b c h) l = payment_delete-IsLedger bank ctx id b c h l
Call-IsLedger bank _ _ (allocated ctx new_id id request b c h) l =
    payment_allocate-IsLedger bank ctx new_id id request b c h l
Call-IsLedger bank _ _ (unallocated ctx id b c h) l =
    payment_unallocate-IsLedger bank ctx id b c h l
Call-IsLedger bank _ _ (marked_overdue ctx rows b t h) l =
    mark_overdue_invoices-IsLedger ctx rows b.store t h l
Call-IsLedger bank _ _ (cancelled_one id b t h) l = invoice_cancel-IsLedger id b.store t h l
Call-IsLedger bank _ _ (looked_at id b t h) l = record_invoice_view-IsLedger id b.store t h l
Call-IsLedger bank _ _ (dated id due b t h) l = invoice_set_due_date-IsLedger id due b.store t h l

-- Whatever the bank register does, and whatever requests are served from books that are a ledger,
-- the books are a ledger: each invoice has been paid the sum of its allocations, refunds taken off,
-- which is no less than nothing and no more than its total, and each payment is put against
-- invoices for no more than it is worth.
pub Reached-IsLedger :
    {R : Type 0} (bank : BankRegister R) (b c : Books R)
    → Reached bank b c
    → IsLedger b.store
    → IsLedger c.store
Reached-IsLedger bank b _ at_first l = l
Reached-IsLedger bank b _ (after c d run call) l =
    Call-IsLedger bank c d call (Reached-IsLedger bank b c run l)
