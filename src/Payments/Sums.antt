-- ===== src/Payments/Sums.antt =====
-- The two sums of the allocations (packages/db/src/migrations/0016_payments_rls.sql) under the
-- changes that payments.ts makes to the rows.
use workloom.Base.{
  ◌≡◌, refl, sym, ap, ◌∙◌, true≢false, Bool, true, false, ◌||◌, Option, none, some, List, [], ◌∷◌,
  ◌++◌, String, str_eq, str_eq_iff, Bool-cases, inl, inr,
}
use workloom.Base.Int.{◌+ℤ◌, int_laws}
use workloom.Payments.Store.{
  PaymentRow, Allocation, put, signed, paid_sum, allocated_sum, find_allocation, remove_allocation,
}

pub str_eq_refl : (a : String) → str_eq a a ≡ true
str_eq_refl a = (str_eq_iff a a).1 refl

pub str_ne_comm : (a b : String) → str_eq a b ≡ false → str_eq b a ≡ false
str_ne_comm a b h = elim (Bool-cases (str_eq b a)) [
  | inl same ↦ absurd (true≢false (sym ((str_eq_iff a b).1 (sym ((str_eq_iff b a).0 same))) ∙ h))
  | inr other ↦ other
]

pub put-same {ℓ} :
    {A : Type ℓ} (id : String) (row : Option A) (table : String → Option A)
    → put id row table id ≡ row
put-same id row table = rw (str_eq_refl id) refl

pub put-other {ℓ} :
    {A : Type ℓ} (id key : String) (row : Option A) (table : String → Option A)
    → str_eq key id ≡ false
    → put id row table key ≡ table key
put-other id key row table h = rw h refl

-- A list of ids has an id.
abbrev pub is_in : String → List String → Bool
is_in id [] = false
is_in id (x ∷ xs) = str_eq x id || is_in id xs

pub paid_sum-append :
    (id : String) (payments : String → Option PaymentRow) (xs ys : List Allocation)
    → paid_sum id payments (xs ++ ys) ≡ paid_sum id payments xs +ℤ paid_sum id payments ys
unfolding paid_sum
paid_sum-append id payments [] ys = omega int_laws
paid_sum-append id payments (a ∷ xs) ys = elim (Bool-cases (str_eq a.invoice_id id)) [
  | inl same ↦ rw (same, paid_sum-append id payments xs ys) (omega int_laws)
  | inr other ↦ rw (other, paid_sum-append id payments xs ys) refl
]

pub allocated_sum-append :
    (id : String) (xs ys : List Allocation)
    → allocated_sum id (xs ++ ys) ≡ allocated_sum id xs +ℤ allocated_sum id ys
unfolding allocated_sum
allocated_sum-append id [] ys = omega int_laws
allocated_sum-append id (a ∷ xs) ys = elim (Bool-cases (str_eq a.payment_id id)) [
  | inl same ↦ rw (same, allocated_sum-append id xs ys) (omega int_laws)
  | inr other ↦ rw (other, allocated_sum-append id xs ys) refl
]

-- A row that is put at the end.
pub paid_sum-snoc_other :
    (id : String) (payments : String → Option PaymentRow) (xs : List Allocation) (a : Allocation)
    → str_eq a.invoice_id id ≡ false
    → paid_sum id payments (xs ++ a ∷ []) ≡ paid_sum id payments xs
unfolding paid_sum
paid_sum-snoc_other id payments xs a h =
    rw (paid_sum-append id payments xs (a ∷ []), h) (omega int_laws)

pub paid_sum-snoc_same :
    (payments : String → Option PaymentRow) (xs : List Allocation) (a : Allocation)
    → paid_sum a.invoice_id payments (xs ++ a ∷ [])
      ≡ paid_sum a.invoice_id payments xs +ℤ signed (payments a.payment_id) a.amount
unfolding paid_sum
paid_sum-snoc_same payments xs a =
    rw (paid_sum-append a.invoice_id payments xs (a ∷ []), str_eq_refl a.invoice_id)
      (omega int_laws)

pub allocated_sum-snoc_other :
    (id : String) (xs : List Allocation) (a : Allocation)
    → str_eq a.payment_id id ≡ false
    → allocated_sum id (xs ++ a ∷ []) ≡ allocated_sum id xs
unfolding allocated_sum
allocated_sum-snoc_other id xs a h = rw (allocated_sum-append id xs (a ∷ []), h) (omega int_laws)

pub allocated_sum-snoc_same :
    (xs : List Allocation) (a : Allocation)
    → allocated_sum a.payment_id (xs ++ a ∷ []) ≡ allocated_sum a.payment_id xs +ℤ a.amount
unfolding allocated_sum
allocated_sum-snoc_same xs a =
    rw (allocated_sum-append a.payment_id xs (a ∷ []), str_eq_refl a.payment_id) (omega int_laws)

abbrev row_or : Allocation → Option Allocation → Allocation
row_or a none = a
row_or a (some b) = b

-- A row that is taken out, which `find_allocation` found.
pub paid_sum-remove_other :
    (id aid : String) (payments : String → Option PaymentRow) (xs : List Allocation)
    (a : Allocation)
    → find_allocation aid xs ≡ some a
    → str_eq a.invoice_id id ≡ false
    → paid_sum id payments (remove_allocation aid xs) ≡ paid_sum id payments xs
unfolding paid_sum find_allocation remove_allocation
paid_sum-remove_other id aid payments [] a found h = absurd (cc)
paid_sum-remove_other id aid payments (x ∷ xs) a found h = elim (Bool-cases (str_eq x.id aid)) [
  | inl this ↦
      rw
        (
          this,
          ap (λ (o : Option Allocation). str_eq (row_or a o).invoice_id id) (rw this at found),
          h,
        )
        refl
  | inr later ↦ rw (later, paid_sum-remove_other id aid payments xs a (rw later at found) h) refl
]

pub allocated_sum-remove_other :
    (id aid : String) (xs : List Allocation) (a : Allocation)
    → find_allocation aid xs ≡ some a
    → str_eq a.payment_id id ≡ false
    → allocated_sum id (remove_allocation aid xs) ≡ allocated_sum id xs
unfolding allocated_sum find_allocation remove_allocation
allocated_sum-remove_other id aid [] a found h = absurd (cc)
allocated_sum-remove_other id aid (x ∷ xs) a found h = elim (Bool-cases (str_eq x.id aid)) [
  | inl this ↦
      rw
        (
          this,
          ap (λ (o : Option Allocation). str_eq (row_or a o).payment_id id) (rw this at found),
          h,
        )
        refl
  | inr later ↦ rw (later, allocated_sum-remove_other id aid xs a (rw later at found) h) refl
]

pub or_false : (a b : Bool) → (a || b) ≡ false → (a ≡ false) × (b ≡ false)
or_false true b h = cc
or_false false b h = (refl, h)

-- What holds of each row of a table after a write of one.
pub put_cases {ℓ κ} :
    {A : Type ℓ} (P : String → Option A → Type κ) (id : String) (row : Option A)
    (table : String → Option A) (key : String)
    → P id row
    → (str_eq key id ≡ false → P key (table key))
    → P key (put id row table key)
put_cases P id row table key written kept = elim (Bool-cases (str_eq key id)) [
  | inl same ↦ rw (same, (str_eq_iff key id).0 same) written
  | inr other ↦ rw other (kept other)
]
