-- ===== src/IndexStorage/Expiry/Termination.antt =====
-- The loop over the pages of expired blocks ends, and what it deletes.
use push_snode.Base.{
  ℕ, zero, suc, ◌+◌, ◌≤◌, ◌<◌, String, ◌≡◌, refl, ◌∙◌, sym, Bool, true, ◌++◌, filter, not, List, [],
  ◌∷◌, some, arith, length, length-filter-le, take, drop, ltb, Bool-cases, inl, inr, string_eq,
}
use push_snode.Base.JsSet.{has, has-append}
use push_snode.Db.{Db, BlockRow}
use push_snode.IndexStorage.Expiry.{
  select_keys, delete_keys, expired_block, block_key, delete_blocks_loop,
  delete_expired_blocks_paginated,
}

length-select_keys-le :
    {R : Type 0} (key : R → String) (test : R → Bool) (rows : List R)
    → length (select_keys key test rows) ≤ length rows
unfolding select_keys
length-select_keys-le key test [] = omega arith
length-select_keys-le key test (row ∷ rows) = elim (Bool-cases (test row)) [
  | inl q ↦ rw q (omega (arith, length-select_keys-le key test rows))
  | inr q ↦ rw q (omega (arith, length-select_keys-le key test rows))
]

length-take-le : (n : ℕ) (xs : List String) → length (take n xs) ≤ length xs
length-take-le zero xs = omega arith
length-take-le (suc n) [] = omega arith
length-take-le (suc n) (x ∷ xs) = omega (arith, length-take-le n xs)

-- A page that is not empty lies inside the list.
length-page-le :
    (n offset : ℕ) (xs : List String)
    → 0 < length (take n (drop offset xs))
    → offset + length (take n (drop offset xs)) ≤ length xs
length-page-le n zero xs h = omega (arith, length-take-le n xs)
length-page-le zero (suc offset) [] h = absurd (omega arith)
length-page-le (suc n) (suc offset) [] h = absurd (omega arith)
length-page-le n (suc offset) (x ∷ xs) h = omega (arith, length-page-le n offset xs h)

has-take_of : (n : ℕ) (xs : List String) (h : String) → has (take n xs) h ≡ true → has xs h ≡ true
unfolding has
has-take_of zero xs h q = cc
has-take_of (suc n) [] h q = q
has-take_of (suc n) (x ∷ xs) h q = ground (arith, has-take_of n xs h, q)

has-drop_of : (n : ℕ) (xs : List String) (h : String) → has (drop n xs) h ≡ true → has xs h ≡ true
unfolding has
has-drop_of zero xs h q = q
has-drop_of (suc n) [] h q = q
has-drop_of (suc n) (x ∷ xs) h q = ground (arith, has-drop_of n xs h q)

-- The rows that are kept have no key that was not there before.
has-select_keys-filter :
    {R : Type 0} (key : R → String) (test p : R → Bool) (rows : List R) (h : String)
    → has (select_keys key test (filter p rows)) h ≡ true
    → has (select_keys key test rows) h ≡ true
unfolding select_keys has
has-select_keys-filter key test p [] h q = q
has-select_keys-filter key test p (row ∷ rows) h q =
    ground (arith, has-select_keys-filter key test p rows h, q)

-- Two deletions are one.
delete_keys-append :
    {R : Type 0} (key : R → String) (test : R → Bool) (xs ys : List String) (rows : List R)
    → delete_keys key test (xs ++ ys) rows ≡ delete_keys key test ys (delete_keys key test xs rows)
delete_keys-append key test xs ys [] = refl
delete_keys-append key test xs ys (row ∷ rows) =
    ground (arith, delete_keys-append key test xs ys rows, has-append xs ys (key row))

-- A deletion of rows with the hash of an expired block, at least of one page of them.
record IsDeletion (expiry_ts page_size offset : ℕ) (rows left : List BlockRow) (gone : List String)
    : Type 0 where
  kept : left ≡ delete_keys block_key (expired_block expiry_ts) gone rows
  were_expired :
      (h : String)
      → has gone h ≡ true
      → has (select_keys block_key (expired_block expiry_ts) rows) h ≡ true
  page_is_gone :
      (h : String)
      → has (take page_size (drop offset (select_keys block_key (expired_block expiry_ts) rows))) h
        ≡ true
      → has gone h ≡ true

-- No offset passes `bound`, and every step but the last adds a page to it.
delete_blocks_loop-returns :
    (bound fuel expiry_ts page_size offset : ℕ) (rows : List BlockRow)
    → 0 < page_size
    → length rows ≤ bound
    → offset ≤ bound
    → bound < fuel + offset
    → (left : List BlockRow) × (gone : List String) × (delete_blocks_loop fuel expiry_ts page_size
          offset rows
        ≡ some left)
      × IsDeletion expiry_ts page_size offset rows left gone
unfolding delete_blocks_loop
delete_blocks_loop-returns bound zero expiry_ts page_size offset rows pos few inside enough =
    absurd (omega arith)
delete_blocks_loop-returns bound (suc fuel) expiry_ts page_size offset rows pos few inside enough =
    let keys : List String = select_keys block_key (expired_block expiry_ts) rows in
    let batch : List String = take page_size (drop offset keys) in
    let rows' : List BlockRow = delete_keys block_key (expired_block expiry_ts) batch rows in
    let expired : (h : String) → has batch h ≡ true → has keys h ≡ true =
      λ h q. has-drop_of offset keys h (has-take_of page_size (drop offset keys) h q) in
    elim (Bool-cases (ltb (length batch) page_size)) [
      | inl q ↦ (
        rows',
        batch,
        rw q refl,
        record { kept = refl; were_expired = expired; page_is_gone = λ h r. r },
      )
      | inr q ↦
          let full : page_size ≤ length batch = ground arith in
          let page : offset + length batch ≤ length keys =
            length-page-le page_size offset keys (omega arith) in
          let (left, gone, r, d) =
            delete_blocks_loop-returns bound fuel expiry_ts page_size (offset + page_size) rows' pos
              (omega (arith, few, length-filter-le (λ row. not (has batch (block_key row))) rows))
              (omega (
                arith,
                page,
                full,
                few,
                length-select_keys-le block_key (expired_block expiry_ts) rows,
              ))
              (omega (arith, pos, enough)) in
          (
            left,
            batch ++ gone,
            rw q r,
            record {
              kept =
                  d.kept
                  ∙ sym (delete_keys-append block_key (expired_block expiry_ts) batch gone rows);
              were_expired = λ h z. elim (Bool-cases (has batch h)) [
                | inl first ↦ expired h first
                | inr later ↦
                    has-select_keys-filter block_key (expired_block expiry_ts)
                      (λ row. not (has batch (block_key row))) rows h
                      (d.were_expired h (ground (arith, has-append batch gone h, later, z)))
              ];
              page_is_gone = λ h z. ground (arith, has-append batch gone h, z);
            },
          )
    ]

-- Deleting the expired blocks page by page returns for every page size but 0, whatever is stored. What is
-- left are the blocks without those of some hashes, which are hashes of expired blocks, among them the first
-- page of the hashes of expired blocks: no other block is deleted, and all expired ones are where they are
-- no more than a page.
pub delete_expired_blocks_paginated-returns :
    (expiry_ts page_size : ℕ) (db : Db)
    → 0 < page_size
    → let expired : List String = select_keys block_key (expired_block expiry_ts) db.blocks in
      (left : List BlockRow) × (gone : List String) × (delete_expired_blocks_paginated expiry_ts
          page_size db
        ≡ some left)
      × (left ≡ filter (λ row. not (has gone row.object_hash)) db.blocks)
      × ((h : String) → has gone h ≡ true → has expired h ≡ true)
      × ((h : String) → has (take page_size expired) h ≡ true → has gone h ≡ true)
unfolding delete_expired_blocks_paginated
delete_expired_blocks_paginated-returns expiry_ts page_size db pos =
    let (left, gone, returns, d) =
      delete_blocks_loop-returns (length db.blocks) (suc (length db.blocks)) expiry_ts page_size 0
        db.blocks pos (omega arith) (omega arith) (omega arith) in
    (left, gone, returns, d.kept, d.were_expired, d.page_is_gone)
