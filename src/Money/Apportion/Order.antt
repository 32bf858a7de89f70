-- ===== src/Money/Apportion/Order.antt =====
-- The order in which `apportion` gives out spare units holds every index once.
use workloom.Base.{
  ℕ, suc, ◌+◌, ◌≤◌, ◌<◌, ◌≡◌, refl, ap, ◌∙◌, List, [], ◌∷◌, map, length, count, arith, ◌==◌,
  if◌then◌else◌, Bool-cases, inl, inr,
}
use workloom.Base.Int.{ℤ}
use workloom.Money.Apportion.{Entry, goes_before, insert, sort, entries}

abbrev pub indices : List Entry → List ℕ
indices = map (λ e. e.index)

count-insert :
    (j : ℕ) (e : Entry) (es : List Entry)
    → count j (indices (insert e es)) ≡ count j (indices (e ∷ es))
unfolding insert
count-insert j e [] = refl
count-insert j e (x ∷ xs) = elim (Bool-cases (goes_before e x)) [
  | inl first ↦ rw first
  | inr later ↦ rw later (omega (arith, count-insert j e xs))
]

-- Sorting keeps how often each index stands.
pub count-sort : (j : ℕ) (es : List Entry) → count j (indices (sort es)) ≡ count j (indices es)
unfolding sort
count-sort j [] = refl
count-sort j (e ∷ es) =
    count-insert j e (sort es) ∙ ap (λ n. (if e.index == j then 1 else 0) + n) (count-sort j es)

length-insert : (e : Entry) (es : List Entry) → length (insert e es) ≡ suc (length es)
unfolding insert
length-insert e [] = refl
length-insert e (x ∷ xs) = elim (Bool-cases (goes_before e x)) [
  | inl first ↦ rw first
  | inr later ↦ rw later (omega (arith, length-insert e xs))
]

pub length-sort : (es : List Entry) → length (sort es) ≡ length es
unfolding sort
length-sort [] = refl
length-sort (e ∷ es) = omega (arith, length-insert e (sort es), length-sort es)

pub length-entries : (d : ℤ) (i : ℕ) (ns : List ℤ) → length (entries d i ns) ≡ length ns
unfolding entries
length-entries d i [] = refl
length-entries d i (n ∷ ns) = ap suc (length-entries d (suc i) ns)

count-entries_below :
    (d : ℤ) (i j : ℕ) (ns : List ℤ) → j < i → count j (indices (entries d i ns)) ≡ 0
unfolding entries
count-entries_below d i j [] h = refl
count-entries_below d i j (n ∷ ns) h = ground (arith, count-entries_below d (suc i) j ns)

-- No index stands twice among the entries.
pub count-entries : (d : ℤ) (i j : ℕ) (ns : List ℤ) → count j (indices (entries d i ns)) ≤ 1
unfolding entries
count-entries d i j [] = omega arith
count-entries d i j (n ∷ ns) =
    ground (arith, count-entries d (suc i) j ns, count-entries_below d (suc i) j ns)

-- Each entry's index is below a bound.
abbrev pub AllBelow : ℕ → List Entry → Type 0
AllBelow n [] = Unit {0}
AllBelow n (e ∷ es) = (e.index < n) × AllBelow n es

insert-AllBelow :
    (n : ℕ) (e : Entry) (es : List Entry) → e.index < n → AllBelow n es → AllBelow n (insert e es)
unfolding insert
insert-AllBelow n e [] h hs = (h, tt)
insert-AllBelow n e (x ∷ xs) h hs = elim (Bool-cases (goes_before e x)) [
  | inl first ↦ rw first (h, hs)
  | inr later ↦ rw later (hs.0, insert-AllBelow n e xs h hs.1)
]

pub sort-AllBelow : (n : ℕ) (es : List Entry) → AllBelow n es → AllBelow n (sort es)
unfolding sort
sort-AllBelow n [] h = tt
sort-AllBelow n (e ∷ es) h = insert-AllBelow n e (sort es) h.0 (sort-AllBelow n es h.1)

pub entries-AllBelow :
    (d : ℤ) (i n : ℕ) (ns : List ℤ) → i + length ns ≤ n → AllBelow n (entries d i ns)
unfolding entries
entries-AllBelow d i n [] h = tt
entries-AllBelow d i n (x ∷ xs) h = (omega arith, entries-AllBelow d (suc i) n xs (omega arith))
