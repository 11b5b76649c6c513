-- ===== src/DbHelper/Inbox/Short.antt =====
-- A page has no more rows than its size before rows of one time.
use push_snode.Base.{
  ℕ, zero, suc, ◌≤◌, ◌<◌, ◌≡◌, refl, ap, ◌∙◌, List, [], ◌∷◌, Bool-cases, inl, inr, All, filter,
  length, nat_beq, arith,
}
use push_snode.Db.{InboxRow}
use push_snode.DbHelper.Inbox.{SortOrder, before, ties, fetch_first}
use push_snode.DbHelper.Inbox.Order.{before_irrefl, NoneBefore, IsOrdered}

-- How many rows of the page come strictly before the time.
abbrev pub count_before : SortOrder → ℕ → List InboxRow → ℕ
count_before s t page = length (filter (λ (r : InboxRow). before s r.ts t) page)

-- Each row of the page has fewer than `n` rows of the page strictly before it.
abbrev pub IsShort : SortOrder → ℕ → List InboxRow → Type 0
IsShort s n page = All (λ (row : InboxRow). count_before s row.ts page < n) page

module _ (s : SortOrder) where
  count_before-none :
      (t : ℕ) (page : List InboxRow) → NoneBefore s t page → count_before s t page ≡ 0
  count_before-none t [] h = refl
  count_before-none t (row ∷ page) (here, rest) = rw here (count_before-none t page rest)

  NoneBefore-ties :
      (t x : ℕ) (rows : List InboxRow) → NoneBefore s t rows → NoneBefore s t (ties x rows)
  unfolding ties
  NoneBefore-ties t x [] h = tt
  NoneBefore-ties t x (row ∷ rows) (here, rest) = elim (Bool-cases (nat_beq row.ts x)) [
    | inl q ↦ rw (ties, q) ((here, NoneBefore-ties t x rows rest))
    | inr q ↦ rw (ties, q) tt
  ]

  NoneBefore-fetch_first :
      (n t : ℕ) (rows : List InboxRow) → NoneBefore s t rows → NoneBefore s t (fetch_first n rows)
  unfolding fetch_first
  NoneBefore-fetch_first zero t rows h = tt
  NoneBefore-fetch_first (suc n) t [] h = tt
  NoneBefore-fetch_first (suc zero) t (row ∷ rows) (here, rest) =
      (here, NoneBefore-ties t row.ts rows rest)
  NoneBefore-fetch_first (suc (suc n)) t (row ∷ rows) (here, rest) =
      (here, NoneBefore-fetch_first (suc n) t rows rest)

  -- The rows of one time have nothing before them.
  ties-IsShort :
      (t : ℕ) (page rows : List InboxRow)
      → count_before s t page ≡ 0
      → All (λ (row : InboxRow). count_before s row.ts page < 1) (ties t rows)
  unfolding ties
  ties-IsShort t page [] h = tt
  ties-IsShort t page (row ∷ rows) h = elim (Bool-cases (nat_beq row.ts t)) [
    | inl q ↦
        let same : row.ts ≡ t = ground (arith, q) in
        let none_before : count_before s row.ts page ≡ 0 =
          ap (λ z. count_before s z page) same ∙ h in
        rw (ties, q) ((omega (arith, none_before), ties-IsShort t page rows h))
    | inr q ↦ rw (ties, q) tt
  ]

  count_before-cons :
      (t : ℕ) (row : InboxRow) (page : List InboxRow)
      → count_before s t (row ∷ page) ≤ suc (count_before s t page)
  count_before-cons t row page = elim (Bool-cases (before s row.ts t)) [
    | inl q ↦ rw q (omega arith)
    | inr q ↦ rw q (omega arith)
  ]

  IsShort-cons :
      (n : ℕ) (row : InboxRow) (page rest : List InboxRow)
      → All (λ (r : InboxRow). count_before s r.ts page < n) rest
      → All (λ (r : InboxRow). count_before s r.ts (row ∷ page) < suc n) rest
  IsShort-cons n row page [] h = tt
  IsShort-cons n row page (r ∷ rest) (here, later) =
      (omega (arith, count_before-cons r.ts row page, here), IsShort-cons n row page rest later)

  count_before-first :
      (row : InboxRow) (page : List InboxRow)
      → NoneBefore s row.ts page
      → count_before s row.ts (row ∷ page) ≡ 0
  count_before-first row page h =
      count_before-none row.ts (row ∷ page) ((before_irrefl s row.ts, h))

  pub fetch_first-IsShort :
      (n : ℕ) (rows : List InboxRow)
      → IsOrdered s rows
      → IsShort s (suc n) (fetch_first (suc n) rows)
  unfolding fetch_first
  fetch_first-IsShort n [] o = tt
  fetch_first-IsShort zero (row ∷ rows) (below, o) =
      let none_before : count_before s row.ts (row ∷ ties row.ts rows) ≡ 0 =
        count_before-first row (ties row.ts rows) (NoneBefore-ties row.ts row.ts rows below) in
      (omega (arith, none_before), ties-IsShort row.ts (row ∷ ties row.ts rows) rows none_before)
  fetch_first-IsShort (suc n) (row ∷ rows) (below, o) =
      let page : List InboxRow = fetch_first (suc n) rows in
      let none_before : count_before s row.ts (row ∷ page) ≡ 0 =
        count_before-first row page (NoneBefore-fetch_first (suc n) row.ts rows below) in
      (
        omega (arith, none_before),
        IsShort-cons (suc n) row page page (fetch_first-IsShort n rows o),
      )
