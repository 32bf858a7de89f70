-- ===== src/Payments/Taken.antt =====
-- The sums of packages/db/src/migrations/0016_payments_rls.sql when a payment's rows are taken out,
-- and when its row is replaced or new.
use workloom.Base.{
  ◌≡◌, refl, false, Option, none, some, List, [], ◌∷◌, String, str_eq, str_eq_iff, Bool-cases, inl,
  inr,
}
use workloom.Base.Int.{ℤ, pos, neg_ℤ}
use workloom.Payments.Sums.{put-other, str_ne_comm, is_in, or_false}
use workloom.Payments.Store.{
  PaymentKind, payment, refund, PaymentRow, Allocation, put, signed, paid_sum, allocated_sum,
  allocated_to, remove_allocations_of,
}

-- All the rows of a payment are taken out, and the payment with them.
pub paid_sum-remove_allocations_of :
    (id pid : String) (payments : String → Option PaymentRow) (xs : List Allocation)
    → is_in id (allocated_to pid xs) ≡ false
    → paid_sum id (put pid none payments) (remove_allocations_of pid xs) ≡ paid_sum id payments xs
unfolding paid_sum allocated_to remove_allocations_of
paid_sum-remove_allocations_of id pid payments [] h = refl
paid_sum-remove_allocations_of id pid payments (x ∷ xs) h =
    elim (Bool-cases (str_eq x.payment_id pid)) [
      | inl mine ↦
          let (apart, rest) = or_false (str_eq x.invoice_id id) _ (rw mine at h) in
          rw (mine, apart) (paid_sum-remove_allocations_of id pid payments xs rest)
      | inr other ↦
          rw
            (
              other,
              paid_sum-remove_allocations_of id pid payments xs (rw other at h),
              put-other pid x.payment_id none payments other,
            )
            refl
    ]

pub allocated_sum-remove_allocations_of :
    (id pid : String) (xs : List Allocation)
    → str_eq id pid ≡ false
    → allocated_sum id (remove_allocations_of pid xs) ≡ allocated_sum id xs
unfolding allocated_sum remove_allocations_of
allocated_sum-remove_allocations_of id pid [] h = refl
allocated_sum-remove_allocations_of id pid (x ∷ xs) h =
    elim (Bool-cases (str_eq x.payment_id pid)) [
      | inl mine ↦
          rw
            (
              mine,
              (str_eq_iff x.payment_id pid).0 mine,
              str_ne_comm id pid h,
              allocated_sum-remove_allocations_of id pid xs h,
            )
            refl
      | inr other ↦ rw (other, allocated_sum-remove_allocations_of id pid xs h) refl
    ]

signed_kind :
    (k k' : PaymentKind) (amount : ℤ)
    → k ≡ k'
    → (elim k [ payment ↦ amount | refund ↦ neg_ℤ amount ])
      ≡ (elim k' [ payment ↦ amount | refund ↦ neg_ℤ amount ])
signed_kind k k' amount h = rw h refl

signed-put :
    (key : String) (payments : String → Option PaymentRow) (p before : PaymentRow) (amount : ℤ)
    → payments p.id ≡ some before
    → p.kind ≡ before.kind
    → signed (put p.id (some p) payments key) amount ≡ signed (payments key) amount
signed-put key payments p before amount h k = elim (Bool-cases (str_eq key p.id)) [
  | inl same ↦ rw (same, (str_eq_iff key p.id).0 same, h) (signed_kind p.kind before.kind amount k)
  | inr other ↦ rw other refl
]

pub cons-nil : {x : String} {xs : List String} → ¬ (x ∷ xs ≡ [])
cons-nil h = cc

-- A payment's row is replaced by one of the same kind.
pub paid_sum-put_same_kind :
    (id : String) (payments : String → Option PaymentRow) (p before : PaymentRow)
    (xs : List Allocation)
    → payments p.id ≡ some before
    → p.kind ≡ before.kind
    → paid_sum id (put p.id (some p) payments) xs ≡ paid_sum id payments xs
unfolding paid_sum
paid_sum-put_same_kind id payments p before [] h k = refl
paid_sum-put_same_kind id payments p before (x ∷ xs) h k =
    rw
      (
        paid_sum-put_same_kind id payments p before xs h k,
        signed-put x.payment_id payments p before x.amount h k,
      )
      refl

-- The payment is new: no row is its.
pub paid_sum-put_fresh :
    (id pid : String) (row : Option PaymentRow) (payments : String → Option PaymentRow)
    (xs : List Allocation)
    → allocated_to pid xs ≡ []
    → paid_sum id (put pid row payments) xs ≡ paid_sum id payments xs
unfolding paid_sum allocated_to
paid_sum-put_fresh id pid row payments [] h = refl
paid_sum-put_fresh id pid row payments (x ∷ xs) h = elim (Bool-cases (str_eq x.payment_id pid)) [
  | inl mine ↦ absurd (cons-nil (rw mine at h))
  | inr other ↦
      rw
        (
          put-other pid x.payment_id row payments other,
          paid_sum-put_fresh id pid row payments xs (rw other at h),
        )
        refl
]

pub allocated_sum-fresh :
    (pid : String) (xs : List Allocation) → allocated_to pid xs ≡ [] → allocated_sum pid xs ≡ pos 0
unfolding allocated_sum allocated_to
allocated_sum-fresh pid [] h = refl
allocated_sum-fresh pid (x ∷ xs) h = elim (Bool-cases (str_eq x.payment_id pid)) [
  | inl mine ↦ absurd (cons-nil (rw mine at h))
  | inr other ↦ rw other (allocated_sum-fresh pid xs (rw other at h))
]
