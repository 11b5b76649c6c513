-- ===== src/DbHelper/Inbox/Order.antt =====
-- The order of a page: sorting keeps the rows and puts them in order.
use push_snode.Base.{ℕ, ◌≡◌, true, false, List, [], ◌∷◌, Bool-cases, inl, inr, All, nat_beq, arith}
use mathlib.Core.List.{Perm}
use mathlib.Core.List.Perm
use push_snode.Db.{InboxRow}
use push_snode.DbHelper.Inbox.{SortOrder, asc, desc, before, insert_row, sort_rows}

-- No row is before the time.
abbrev pub NoneBefore : SortOrder → ℕ → List InboxRow → Type 0
NoneBefore s t rows = All (λ (row : InboxRow). before s row.ts t ≡ false) rows

-- All rows are after the time.
abbrev pub AreAfter : SortOrder → ℕ → List InboxRow → Type 0
AreAfter s t rows = All (λ (row : InboxRow). before s t row.ts ≡ true) rows

abbrev pub IsOrdered : SortOrder → List InboxRow → Type 0
IsOrdered s [] = Unit
IsOrdered s (row ∷ rows) = NoneBefore s row.ts rows × IsOrdered s rows

module _ (s : SortOrder) where
  pub before_irrefl : (x : ℕ) → before s x x ≡ false
  before_irrefl x = elim s [ asc ↦ ground arith | desc ↦ ground arith ]

  pub before_trans : (x y z : ℕ) → before s y x ≡ false → before s y z ≡ true → before s x z ≡ true
  before_trans x y z = elim s [ asc ↦ λ h k. ground arith | desc ↦ λ h k. ground arith ]

  pub before_other : (x y : ℕ) → before s y x ≡ false → nat_beq y x ≡ false → before s x y ≡ true
  before_other x y = elim s [ asc ↦ λ h k. ground arith | desc ↦ λ h k. ground arith ]

  before_trans_le : (x y z : ℕ) → before s y x ≡ false → before s z y ≡ false → before s z x ≡ false
  before_trans_le x y z = elim s [ asc ↦ λ h k. ground arith | desc ↦ λ h k. ground arith ]

  before_asym : (x y : ℕ) → before s x y ≡ true → before s y x ≡ false
  before_asym x y = elim s [ asc ↦ λ h. ground arith | desc ↦ λ h. ground arith ]

  NoneBefore-trans :
      (x y : ℕ) (rows : List InboxRow)
      → before s y x ≡ false
      → NoneBefore s y rows
      → NoneBefore s x rows
  NoneBefore-trans x y [] h k = tt
  NoneBefore-trans x y (row ∷ rows) h (here, rest) =
      (before_trans_le x y row.ts h here, NoneBefore-trans x y rows h rest)

  pub before_le : (x y z : ℕ) → before s x y ≡ true → before s z y ≡ false → before s x z ≡ true
  before_le x y z = elim s [ asc ↦ λ h k. ground arith | desc ↦ λ h k. ground arith ]

  pub AreAfter-of_NoneBefore :
      (x y : ℕ) (rows : List InboxRow)
      → before s x y ≡ true
      → NoneBefore s y rows
      → AreAfter s x rows
  AreAfter-of_NoneBefore x y [] h k = tt
  AreAfter-of_NoneBefore x y (row ∷ rows) h (here, rest) =
      (before_le x y row.ts h here, AreAfter-of_NoneBefore x y rows h rest)

  pub AreAfter-trans :
      (x y : ℕ) (rows : List InboxRow)
      → before s y x ≡ false
      → AreAfter s y rows
      → AreAfter s x rows
  AreAfter-trans x y [] h k = tt
  AreAfter-trans x y (row ∷ rows) h (here, rest) =
      (before_trans x y row.ts h here, AreAfter-trans x y rows h rest)

  -- Sorting gives the rows in order.
  insert_row-NoneBefore :
      (t : ℕ) (row : InboxRow) (rows : List InboxRow)
      → before s row.ts t ≡ false
      → NoneBefore s t rows
      → NoneBefore s t (insert_row s row rows)
  unfolding insert_row
  insert_row-NoneBefore t row [] h k = (h, tt)
  insert_row-NoneBefore t row (r ∷ rows) h (here, rest) = elim (Bool-cases (before s r.ts row.ts)) [
    | inl q ↦ rw (insert_row, q) ((here, insert_row-NoneBefore t row rows h rest))
    | inr q ↦ rw (insert_row, q) ((h, (here, rest)))
  ]

  insert_row-IsOrdered :
      (row : InboxRow) (rows : List InboxRow)
      → IsOrdered s rows
      → IsOrdered s (insert_row s row rows)
  unfolding insert_row
  insert_row-IsOrdered row [] h = (tt, tt)
  insert_row-IsOrdered row (r ∷ rows) (here, rest) = elim (Bool-cases (before s r.ts row.ts)) [
    | inl q ↦
        rw (insert_row, q)
          ((
            insert_row-NoneBefore r.ts row rows (before_asym r.ts row.ts q) here,
            insert_row-IsOrdered row rows rest,
          ))
    | inr q ↦ rw (insert_row, q) (((q, NoneBefore-trans row.ts r.ts rows q here), (here, rest)))
  ]

  pub sort_rows-IsOrdered : (rows : List InboxRow) → IsOrdered s (sort_rows s rows)
  unfolding sort_rows
  sort_rows-IsOrdered [] = tt
  sort_rows-IsOrdered (row ∷ rows) =
      insert_row-IsOrdered row (sort_rows s rows) (sort_rows-IsOrdered rows)

  insert_row-perm :
      (row : InboxRow) (rows : List InboxRow) → Perm (insert_row s row rows) (row ∷ rows)
  unfolding insert_row
  insert_row-perm row [] = Perm.rfl
  insert_row-perm row (r ∷ rows) = elim (Bool-cases (before s r.ts row.ts)) [
    | inl q ↦
        rw (insert_row, q)
          (Perm.trans (Perm.cons r (insert_row-perm row rows)) (Perm.swap row r rows))
    | inr q ↦ rw (insert_row, q) Perm.rfl
  ]

  pub sort_rows-perm : (rows : List InboxRow) → Perm (sort_rows s rows) rows
  unfolding sort_rows
  sort_rows-perm [] = Perm.rfl
  sort_rows-perm (row ∷ rows) =
      Perm.trans (insert_row-perm row (sort_rows s rows)) (Perm.cons row (sort_rows-perm rows))
