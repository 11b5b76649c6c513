-- ===== src/DbHelper/Inbox/Laws.antt =====
-- What a page of an inbox has, and what it leaves out.
use push_snode.Base.{
  ℕ, zero, suc, ◌≤◌, String, ◌≡◌, refl, sym, ap, ◌∙◌, subst, true, List, [], ◌∷◌, ◌++◌, Option, ok,
  Bool-cases, inl, inr, ◌⊎◌, All, if◌then◌else◌, filter, length, nat_beq, arith,
}
use mathlib.Core.List.{Perm}
use push_snode.Db.{Db, InboxRow}
use push_snode.DbHelper.Inbox.{
  SortOrder, sort_order, Timestamp, first_micros, before, is_asked, sort_rows, ties, fetch_first,
  page_of, get_transactions,
}
use push_snode.DbHelper.Inbox.Short.{IsShort, fetch_first-IsShort}
use push_snode.DbHelper.Inbox.Order.{
  NoneBefore, AreAfter, IsOrdered, before_other, AreAfter-of_NoneBefore, AreAfter-trans,
  sort_rows-IsOrdered, sort_rows-perm,
}

-- What the ties and the page leave out.
abbrev pub left_by_ties : ℕ → List InboxRow → List InboxRow
left_by_ties t [] = []
left_by_ties t (row ∷ rows) =
    let rest = left_by_ties t rows in if nat_beq row.ts t then rest else row ∷ rows

abbrev pub left_by_page : ℕ → List InboxRow → List InboxRow
left_by_page zero rows = rows
left_by_page (suc n) [] = []
left_by_page (suc zero) (row ∷ rows) = left_by_ties row.ts rows
left_by_page (suc (suc n)) (row ∷ rows) = left_by_page (suc n) rows

ties-left : (t : ℕ) (rows : List InboxRow) → ties t rows ++ left_by_ties t rows ≡ rows
unfolding ties
ties-left t [] = refl
ties-left t (row ∷ rows) = elim (Bool-cases (nat_beq row.ts t)) [
  | inl q ↦ rw (ties, q) (ap (λ z. row ∷ z) (ties-left t rows))
  | inr q ↦ rw (ties, q) refl
]

pub fetch_first-left :
    (n : ℕ) (rows : List InboxRow) → fetch_first n rows ++ left_by_page n rows ≡ rows
unfolding fetch_first
fetch_first-left zero rows = refl
fetch_first-left (suc n) [] = refl
fetch_first-left (suc zero) (row ∷ rows) = ap (λ z. row ∷ z) (ties-left row.ts rows)
fetch_first-left (suc (suc n)) (row ∷ rows) = ap (λ z. row ∷ z) (fetch_first-left (suc n) rows)

-- A page is full, or nothing is left out.
pub fetch_first-full :
    (n : ℕ) (rows : List InboxRow) → (left_by_page n rows ≡ []) ⊎ (n ≤ length (fetch_first n rows))
unfolding fetch_first
fetch_first-full zero rows = inr (omega arith)
fetch_first-full (suc n) [] = inl refl
fetch_first-full (suc zero) (row ∷ rows) = inr (omega arith)
fetch_first-full (suc (suc n)) (row ∷ rows) = elim (fetch_first-full (suc n) rows) [
  | inl q ↦ inl q
  | inr q ↦ inr (omega (arith, q))
]

-- Every row of the page comes strictly before the time.
abbrev AreBefore : SortOrder → ℕ → List InboxRow → Type 0
AreBefore s t page = All (λ (new : InboxRow). before s new.ts t ≡ true) page

-- Each row that is left out comes strictly after each row of the page.
abbrev pub IsCut : SortOrder → List InboxRow → List InboxRow → Type 0
IsCut s page left = All (λ (old : InboxRow). AreBefore s old.ts page) left

module _ (s : SortOrder) where
  left_by_ties-after :
      (t : ℕ) (rows : List InboxRow)
      → NoneBefore s t rows
      → IsOrdered s rows
      → AreAfter s t (left_by_ties t rows)
  left_by_ties-after t [] h o = tt
  left_by_ties-after t (row ∷ rows) (here, later) (below, o) =
      elim (Bool-cases (nat_beq row.ts t)) [
        | inl q ↦ rw q (left_by_ties-after t rows later o)
        | inr q ↦
            let after : before s t row.ts ≡ true = before_other s t row.ts here q in
            rw q ((after, AreAfter-of_NoneBefore s t row.ts rows after below))
      ]

  AreBefore-ties :
      (t x : ℕ) (rows : List InboxRow) → before s t x ≡ true → AreBefore s x (ties t rows)
  unfolding ties
  AreBefore-ties t x [] h = tt
  AreBefore-ties t x (row ∷ rows) h = elim (Bool-cases (nat_beq row.ts t)) [
    | inl q ↦
        let same : row.ts ≡ t = ground (arith, q) in
        rw (ties, q) ((ap (λ z. before s z x) same ∙ h, AreBefore-ties t x rows h))
    | inr q ↦ rw (ties, q) tt
  ]

  IsCut-ties :
      (row : InboxRow) (rows left : List InboxRow)
      → AreAfter s row.ts left
      → IsCut s (row ∷ ties row.ts rows) left
  IsCut-ties row rows [] h = tt
  IsCut-ties row rows (old ∷ left) (here, rest) =
      ((here, AreBefore-ties row.ts old.ts rows here), IsCut-ties row rows left rest)

  IsCut-cons :
      (row : InboxRow) (page left : List InboxRow)
      → AreAfter s row.ts left
      → IsCut s page left
      → IsCut s (row ∷ page) left
  IsCut-cons row page [] h k = tt
  IsCut-cons row page (old ∷ left) (here, rest) (cut, cuts) =
      ((here, cut), IsCut-cons row page left rest cuts)

  left_by_page-after :
      (n : ℕ) (t : ℕ) (rows : List InboxRow)
      → NoneBefore s t rows
      → IsOrdered s rows
      → AreAfter s t (left_by_page (suc n) rows)
  left_by_page-after n t [] h o = tt
  left_by_page-after zero t (row ∷ rows) (here, later) (below, o) =
      AreAfter-trans s t row.ts (left_by_ties row.ts rows) here
        (left_by_ties-after row.ts rows below o)
  left_by_page-after (suc n) t (row ∷ rows) (here, later) (below, o) =
      left_by_page-after n t rows later o

  fetch_first-IsCut :
      (n : ℕ) (rows : List InboxRow)
      → IsOrdered s rows
      → IsCut s (fetch_first (suc n) rows) (left_by_page (suc n) rows)
  unfolding fetch_first
  fetch_first-IsCut n [] o = tt
  fetch_first-IsCut zero (row ∷ rows) (below, o) =
      IsCut-ties row rows (left_by_ties row.ts rows) (left_by_ties-after row.ts rows below o)
  fetch_first-IsCut (suc n) (row ∷ rows) (below, o) =
      IsCut-cons row (fetch_first (suc n) rows) (left_by_page (suc n) rows)
        (left_by_page-after n row.ts rows below o) (fetch_first-IsCut n rows o)

-- A page of an inbox and what it leaves out are the rows of the inbox that are asked for, each once. The
-- page is in the order that is asked for; each row that it leaves out comes strictly after all of the
-- page, so rows of one time are never parted; and it leaves out something only when it has 30 rows at least. Each row of
-- the page has fewer than 30 rows of the page strictly before it, so it goes on past 30 rows for rows of one
-- time only. The order and the time of the request are well-formed.
pub get_transactions_lem :
    (now_seconds : ℕ) (wallet category : String) (first_ts : Timestamp) (sort : Option String)
    (db : Db) (order : SortOrder) (first : ℕ)
    → sort_order sort ≡ ok order
    → first_micros now_seconds first_ts ≡ ok first
    → (page : List InboxRow) × (left : List InboxRow) × (get_transactions now_seconds wallet
          category first_ts sort db
        ≡ ok (page_of category page))
      × Perm (page ++ left) (filter (is_asked category wallet order first) db.storage_node)
      × IsOrdered order (page ++ left)
      × IsCut order page left
      × ((left ≡ []) ⊎ (30 ≤ length page))
      × IsShort order 30 page
unfolding get_transactions
get_transactions_lem now_seconds wallet category first_ts sort db order first is_order is_first =
    let asked : List InboxRow = filter (is_asked category wallet order first) db.storage_node in
    let rows : List InboxRow = sort_rows order asked in
    let whole : fetch_first 30 rows ++ left_by_page 30 rows ≡ rows = fetch_first-left 30 rows in
    let ordered : IsOrdered order rows = sort_rows-IsOrdered order asked in
    (
      fetch_first 30 rows,
      left_by_page 30 rows,
      rw (get_transactions, is_order, is_first) refl,
      subst (λ z. Perm z asked) (sym whole) (sort_rows-perm order asked),
      subst (IsOrdered order) (sym whole) ordered,
      fetch_first-IsCut order 29 rows ordered,
      fetch_first-full 30 rows,
      fetch_first-IsShort order 29 rows ordered,
    )
