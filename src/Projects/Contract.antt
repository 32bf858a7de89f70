-- ===== src/Projects/Contract.antt =====
-- packages/core/src/modules/projects/contract.ts and scope-lines.ts: the contracted value of a
-- project, and the lines of a final invoice that state it.
use workloom.Base.{
  ◌≡◌, refl, ◌∙◌, Bool, not, ◌&&◌, if◌then◌else◌, Option, none, some, List, [], ◌∷◌, ◌++◌, map,
  String, str_eq, ℕ, leb, Bool-cases, inl, inr,
}
use workloom.Base.Int.{ℤ, pos, ◌+ℤ◌, is_zero, is_zero-eq, is_negative, int_laws}

-- A contract revision: a RevisionAmount and a ScopeRevision of the source are views of it.
pub record ScopeRevision : Type 0 where
  pub title : String
  pub amount : ℤ
  pub status : String
  pub number : ℕ

pub record ScopeLine : Type 0 where
  pub description : String
  pub detail : String
  pub amount : ℤ

unfoldable pub accepted_revisions : List ScopeRevision → ℤ
accepted_revisions [] = pos 0
accepted_revisions (r ∷ rs) =
    let rest = accepted_revisions rs in
    if str_eq r.status "accepted" then r.amount +ℤ rest else rest

unfoldable pub contracted_value : Option ℤ → List ScopeRevision → Option ℤ
contracted_value none revisions =
    let accepted = accepted_revisions revisions in if is_zero accepted then none else some accepted
contracted_value (some base) revisions = some (base +ℤ accepted_revisions revisions)

abbrev pub counted : ScopeRevision → Bool
counted r = str_eq r.status "accepted" && not (is_zero r.amount)

abbrev pub filter_counted : List ScopeRevision → List ScopeRevision
filter_counted [] = []
filter_counted (r ∷ rs) = let rest = filter_counted rs in if counted r then r ∷ rest else rest

-- `sort((a, b) => a.number - b.number)`, which is stable.
abbrev pub insert_by_number : ScopeRevision → List ScopeRevision → List ScopeRevision
insert_by_number r [] = r ∷ []
insert_by_number r (s ∷ ss) =
    let rest = insert_by_number r ss in if leb r.number s.number then r ∷ s ∷ ss else s ∷ rest

abbrev pub sort_by_number : List ScopeRevision → List ScopeRevision
sort_by_number [] = []
sort_by_number (r ∷ rs) = insert_by_number r (sort_by_number rs)

abbrev pub revision_line : ScopeRevision → ScopeLine
revision_line r = record {
  description = r.title;
  detail = if is_negative r.amount then "Reduced scope" else "Additional scope";
  amount = r.amount;
}

-- `baseTitle || project.name`.
abbrev pub base_description : String → Option String → String
base_description name none = name
base_description name (some title) = if str_eq title "" then name else title

abbrev pub base_lines : String → Option ℤ → Option String → List ScopeLine
base_lines name none base_title = []
base_lines name (some value) base_title =
    if is_zero value
    then []
    else record {
      description = base_description name base_title;
      detail = "Initially quoted project fee";
      amount = value;
    }
      ∷ []

unfoldable pub contract_scope_lines :
    String → Option ℤ → List ScopeRevision → Option String → List ScopeLine
contract_scope_lines name value revisions base_title =
    base_lines name value base_title
    ++ map revision_line (sort_by_number (filter_counted revisions))

abbrev pub scope_sum : List ScopeLine → ℤ
scope_sum [] = pos 0
scope_sum (l ∷ ls) = l.amount +ℤ scope_sum ls

abbrev pub value_or_zero : Option ℤ → ℤ
value_or_zero none = pos 0
value_or_zero (some v) = v

scope_sum-append : (xs ys : List ScopeLine) → scope_sum (xs ++ ys) ≡ scope_sum xs +ℤ scope_sum ys
scope_sum-append [] ys = omega int_laws
scope_sum-append (x ∷ xs) ys = rw (scope_sum-append xs ys) (omega int_laws)

scope_sum-insert :
    (r : ScopeRevision) (rs : List ScopeRevision)
    → scope_sum (map revision_line (insert_by_number r rs))
      ≡ r.amount +ℤ scope_sum (map revision_line rs)
scope_sum-insert r [] = refl
scope_sum-insert r (s ∷ ss) = elim (Bool-cases (leb r.number s.number)) [
  | inl before ↦ rw before refl
  | inr after ↦ rw (after, scope_sum-insert r ss) (omega int_laws)
]

scope_sum-sort :
    (rs : List ScopeRevision)
    → scope_sum (map revision_line (sort_by_number rs)) ≡ scope_sum (map revision_line rs)
scope_sum-sort [] = refl
scope_sum-sort (r ∷ rs) = rw (scope_sum-insert r (sort_by_number rs), scope_sum-sort rs) refl

scope_sum-filter :
    (rs : List ScopeRevision)
    → scope_sum (map revision_line (filter_counted rs)) ≡ accepted_revisions rs
unfolding accepted_revisions
scope_sum-filter [] = refl
scope_sum-filter (r ∷ rs) = elim (Bool-cases (str_eq r.status "accepted")) [
  | inl accepted ↦ elim (Bool-cases (is_zero r.amount)) [
    | inl z ↦ rw (accepted, z, scope_sum-filter rs, is_zero-eq r.amount z) (omega int_laws)
    | inr nz ↦ rw (accepted, nz, scope_sum-filter rs) refl
  ]
  | inr other ↦ rw (other, scope_sum-filter rs) refl
]

scope_sum-base_lines :
    (name : String) (value : Option ℤ) (base_title : Option String)
    → scope_sum (base_lines name value base_title) ≡ value_or_zero value
scope_sum-base_lines name none base_title = refl
scope_sum-base_lines name (some value) base_title = elim (Bool-cases (is_zero value)) [
  | inl z ↦ rw (z, is_zero-eq value z) refl
  | inr nz ↦ rw nz (omega int_laws)
]

value_or_zero-contracted_value :
    (value : Option ℤ) (rs : List ScopeRevision)
    → value_or_zero (contracted_value value rs) ≡ value_or_zero value +ℤ accepted_revisions rs
unfolding contracted_value
value_or_zero-contracted_value none rs = elim (Bool-cases (is_zero (accepted_revisions rs))) [
  | inl z ↦ rw (z, is_zero-eq (accepted_revisions rs) z) (omega int_laws)
  | inr nz ↦ rw nz (omega int_laws)
]
value_or_zero-contracted_value (some base) rs = refl

-- The lines that state a project's scope add up to what the project is contracted for, or to
-- nothing where it has no contracted value.
pub scope_sum-contract_scope_lines :
    (name : String) (value : Option ℤ) (revisions : List ScopeRevision) (base_title : Option String)
    → scope_sum (contract_scope_lines name value revisions base_title)
      ≡ value_or_zero (contracted_value value revisions)
unfolding contract_scope_lines
scope_sum-contract_scope_lines name value revisions base_title =
    scope_sum-append (base_lines name value base_title) _
    ∙ rw
        (
          scope_sum-base_lines name value base_title,
          scope_sum-sort (filter_counted revisions),
          scope_sum-filter revisions,
          value_or_zero-contracted_value value revisions,
        )
        refl
