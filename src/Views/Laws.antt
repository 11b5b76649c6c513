-- ===== src/Views/Laws.antt =====
-- Which hashes a view has, and on which pages.
use push_snode.Base.{
  ℕ, String, ◌≡◌, refl, ap, ◌∙◌, Bool, not, ◌&&◌, ◌||◌, List, [], ◌∷◌, filter, any, ◌==◌, ==_iff,
  All, nat_beq, ltb, false, Bool-cases, inl, inr, arith, string_eq, nat_eq,
}
use push_snode.Base.JsSet.{has}
use push_snode.SyncTable.{ViewRow}
use push_snode.Views.{
  TieOrder, matching, insert_newest, newest_first, has_any, same_row, distinct, filtered_blocks,
  hashes_of,
}

-- Some row of the view has the hash and one of the shards.
abbrev pub view_has : List ℕ → List ViewRow → String → Bool
view_has shard_ids rows hash =
    any (λ row. has_any shard_ids row.object_shards && row.object_hash == hash) rows

-- No two rows have the same time.
abbrev pub AreApart : List ViewRow → Type 0
AreApart [] = Unit
AreApart (row ∷ rows) = All (λ (r : ViewRow). nat_beq row.ts r.ts ≡ false) rows × AreApart rows

All-insert_newest :
    (P : ViewRow → Type 0) (tie : TieOrder) (row : ViewRow) (rows : List ViewRow)
    → P row
    → All P rows
    → All P (insert_newest tie row rows)
unfolding insert_newest
All-insert_newest P tie row [] h k = (h, tt)
All-insert_newest P tie row (r ∷ rows) h (here, rest) =
    elim (Bool-cases (ltb row.ts r.ts || (nat_beq row.ts r.ts && tie r row))) [
      | inl q ↦ rw (insert_newest, q) ((here, All-insert_newest P tie row rows h rest))
      | inr q ↦ rw (insert_newest, q) ((h, (here, rest)))
    ]

All-newest_first :
    (P : ViewRow → Type 0) (tie : TieOrder) (rows : List ViewRow)
    → All P rows
    → All P (newest_first tie rows)
unfolding newest_first
All-newest_first P tie [] h = tt
All-newest_first P tie (row ∷ rows) (here, rest) =
    All-insert_newest P tie row (newest_first tie rows) here (All-newest_first P tie rows rest)

insert_newest-tie :
    (tie tie' : TieOrder) (row : ViewRow) (rows : List ViewRow)
    → All (λ (r : ViewRow). nat_beq row.ts r.ts ≡ false) rows
    → insert_newest tie row rows ≡ insert_newest tie' row rows
unfolding insert_newest
insert_newest-tie tie tie' row [] h = refl
insert_newest-tie tie tie' row (r ∷ rows) (here, rest) =
    rw (insert_newest, here, insert_newest-tie tie tie' row rows rest) refl

-- Rows of different times have one order.
newest_first-tie :
    (tie tie' : TieOrder) (rows : List ViewRow)
    → AreApart rows
    → newest_first tie rows ≡ newest_first tie' rows
unfolding newest_first
newest_first-tie tie tie' [] h = refl
newest_first-tie tie tie' (row ∷ rows) (here, rest) =
    ap (insert_newest tie row) (newest_first-tie tie tie' rows rest)
    ∙ insert_newest-tie tie tie' row (newest_first tie' rows)
        (All-newest_first (λ r. nat_beq row.ts r.ts ≡ false) tie' rows here)

pub filtered_blocks-tie :
    (tie tie' : TieOrder) (shard_ids : List ℕ) (rows : List ViewRow)
    → AreApart (matching shard_ids rows)
    → filtered_blocks tie shard_ids rows ≡ filtered_blocks tie' shard_ids rows
unfolding filtered_blocks
filtered_blocks-tie tie tie' shard_ids rows = newest_first-tie tie tie' (matching shard_ids rows)

has-insert_newest :
    (tie : TieOrder) (row : ViewRow) (rows : List ViewRow) (h : String)
    → has (hashes_of (insert_newest tie row rows)) h
      ≡ (row.object_hash == h || has (hashes_of rows) h)
unfolding insert_newest has
has-insert_newest tie row [] h = refl
has-insert_newest tie row (r ∷ rows) h = ground (arith, has-insert_newest tie row rows h)

has-newest_first :
    (tie : TieOrder) (rows : List ViewRow) (h : String)
    → has (hashes_of (newest_first tie rows)) h ≡ has (hashes_of rows) h
unfolding newest_first has
has-newest_first tie [] h = refl
has-newest_first tie (row ∷ rows) h =
    ground (arith, has-insert_newest tie row (newest_first tie rows) h, has-newest_first tie rows h)

has-without_same :
    (row : ViewRow) (rows : List ViewRow) (h : String)
    → (row.object_hash == h || has (hashes_of (filter (λ r. not (same_row row r)) rows)) h)
      ≡ (row.object_hash == h || has (hashes_of rows) h)
unfolding has
has-without_same row [] h = refl
has-without_same row (r ∷ rows) h = elim (Bool-cases (same_row row r)) [
  | inr other ↦ rw other (ground (arith, has-without_same row rows h))
  | inl same ↦ rw same (
      ground (
        arith,
        has-without_same row rows h,
        same,
        ==_iff row.object_hash r.object_hash,
        ==_iff row.object_hash h,
        ==_iff r.object_hash h,
      ))
]

has-distinct :
    (rows : List ViewRow) (h : String) → has (hashes_of (distinct rows)) h ≡ has (hashes_of rows) h
unfolding distinct has
has-distinct [] h = refl
has-distinct (row ∷ rows) h =
    has-without_same row (distinct rows) h
    ∙ ap (λ b. row.object_hash == h || b) (has-distinct rows h)

has-filter_rows :
    (shard_ids : List ℕ) (rows : List ViewRow) (h : String)
    → has (hashes_of (filter (λ row. has_any shard_ids row.object_shards) rows)) h
      ≡ view_has shard_ids rows h
unfolding has
has-filter_rows ids [] h = refl
has-filter_rows ids (row ∷ rows) h = ground (arith, has-filter_rows ids rows h)

-- The query finds the hashes that the view has.
pub has-filtered_blocks :
    (tie : TieOrder) (shard_ids : List ℕ) (rows : List ViewRow) (h : String)
    → has (hashes_of (filtered_blocks tie shard_ids rows)) h ≡ view_has shard_ids rows h
unfolding filtered_blocks matching
has-filtered_blocks tie ids rows h =
    has-newest_first tie (distinct (filter (λ row. has_any ids row.object_shards) rows)) h
    ∙ has-distinct (filter (λ row. has_any ids row.object_shards) rows) h
    ∙ has-filter_rows ids rows h
