-- ===== src/IndexStorage/Removal/Laws.antt =====
-- Which rows of the inboxes get an expiry time.
use push_snode.Base.{
  ℕ, suc, ◌*◌, ◌≤◌, ◌<◌, String, ◌≡◌, refl, sym, ◌∙◌, Bool, true, false, ◌&&◌, ◌||◌, List, [], ◌∷◌,
  some, if◌then◌else◌, inl, inr, All, length, map, take, take_all, List-cases, ap, drop, any, ltb,
  nat_beq, nat_eq, string_eq, arith, ◌==◌,
}
use push_snode.Base.JsSet.{has}
use push_snode.Db.{Db, InboxRow, BlockRow}
use push_snode.IndexStorage.Expiry.{select_keys, page_count, inbox_page_size, row_skey, block_key}
use push_snode.IndexStorage.Removal.{
  set_expiration, is_in_shard, expire_pages, expire_shards, set_expiry_time_for_transactions,
  is_left, set_block_expiry, expire_blocks, update_block_expiry_timestamp_paginated,
}

-- A query answers each of its rows once, in some order.
pub record IsAnswer (order : ℕ → List String → List String) : Type 0 where
  pub has-order : (i : ℕ) (keys : List String) (k : String) → has (order i keys) k ≡ has keys k
  pub length-order : (i : ℕ) (keys : List String) → length (order i keys) ≡ length keys

-- The rows whose key passes the test get the time.
abbrev pub expire_by : (String → Bool) → ℕ → List InboxRow → List InboxRow
expire_by p t rows =
    map (λ row. if p row.skey then record row { expiration_ts = some t } else row) rows

-- The keys of the rows of the shards.
abbrev pub keys_in : List ℕ → List InboxRow → List String
keys_in shards rows = select_keys row_skey (λ row. has shards row.namespace_shard_id) rows

expire_by-expire_by :
    (p q r : String → Bool) (t : ℕ) (rows : List InboxRow)
    → ((k : String) → (p k || q k) ≡ r k)
    → expire_by q t (expire_by p t rows) ≡ expire_by r t rows
expire_by-expire_by p q r t [] h = refl
expire_by-expire_by p q r t (row ∷ rows) h =
    ground (arith, h row.skey, expire_by-expire_by p q r t rows h)

select_keys-expire_by :
    (p : String → Bool) (t : ℕ) (f : ℕ → Bool) (rows : List InboxRow)
    → select_keys row_skey (λ row. f row.namespace_shard_id) (expire_by p t rows)
      ≡ select_keys row_skey (λ row. f row.namespace_shard_id) rows
unfolding select_keys
select_keys-expire_by p t f [] = refl
select_keys-expire_by p t f (row ∷ rows) = ground (arith, select_keys-expire_by p t f rows)

keys_in-nil : (rows : List InboxRow) → keys_in [] rows ≡ []
unfolding select_keys has
keys_in-nil [] = refl
keys_in-nil (row ∷ rows) = keys_in-nil rows

has-keys_in :
    (s : ℕ) (shards : List ℕ) (rows : List InboxRow) (k : String)
    → has (keys_in (s ∷ shards) rows) k
      ≡ (has (select_keys row_skey (is_in_shard s) rows) k || has (keys_in shards rows) k)
unfolding select_keys has
has-keys_in s shards [] k = refl
has-keys_in s shards (row ∷ rows) k = ground (arith, has-keys_in s shards rows k)

expire_by-none : (t : ℕ) (rows : List InboxRow) → expire_by (λ k. false) t rows ≡ rows
expire_by-none t [] = refl
expire_by-none t (row ∷ rows) = ap (λ z. row ∷ z) (expire_by-none t rows)

expire_by-ap :
    (p q : String → Bool) (t : ℕ) (rows : List InboxRow)
    → ((k : String) → p k ≡ q k)
    → expire_by p t rows ≡ expire_by q t rows
expire_by-ap p q t [] h = refl
expire_by-ap p q t (row ∷ rows) h = ground (arith, h row.skey, expire_by-ap p q t rows h)

length-select_keys-le :
    {R : Type 0} (key : R → String) (test : R → Bool) (rows : List R)
    → length (select_keys key test rows) ≤ length rows
unfolding select_keys
length-select_keys-le key test [] = omega arith
length-select_keys-le key test (row ∷ rows) = ground (arith, length-select_keys-le key test rows)

-- Some row has the key and passes the test.
abbrev pub has_row : {R : Type 0} → (R → String) → (R → Bool) → List R → String → Bool
has_row key test rows k = any (λ r. test r && key r == k) rows

has-select_keys :
    {R : Type 0} (key : R → String) (test : R → Bool) (rows : List R) (k : String)
    → has (select_keys key test rows) k ≡ has_row key test rows k
unfolding select_keys has
has-select_keys key test [] k = refl
has-select_keys key test (row ∷ rows) k = ground (arith, has-select_keys key test rows k)

-- The blocks whose hash passes the test get the time.
abbrev pub expire_blocks_by : (String → Bool) → ℕ → List BlockRow → List BlockRow
expire_blocks_by p t rows =
    map (λ row. if p row.object_hash then record row { expiry_ts = some t } else row) rows

set_block_expiry_lem :
    (keys : List String) (p : String → Bool) (t : ℕ) (rows : List BlockRow)
    → ((k : String) → has keys k ≡ p k)
    → set_block_expiry keys t rows ≡ expire_blocks_by p t rows
unfolding set_block_expiry
set_block_expiry_lem keys p t [] h = refl
set_block_expiry_lem keys p t (row ∷ rows) h =
    ground (arith, h row.object_hash, set_block_expiry_lem keys p t rows h)

-- Some row with the key is in a removed shard.
abbrev pub is_removed : List ℕ → List InboxRow → String → Bool
is_removed shards rows = has_row row_skey (λ row. has shards row.namespace_shard_id) rows

-- No shard has more rows than a page.
abbrev pub AreFew : List ℕ → List InboxRow → Type 0
AreFew shards rows =
    All (λ s. length (select_keys row_skey (is_in_shard s) rows) ≤ inbox_page_size) shards

module _ (order : ℕ → List String → List String) (answers : IsAnswer order) (expiry_time : ℕ) where
  -- One page is enough.
  expire_pages_lem :
      (shard_id : ℕ) (rows : List InboxRow)
      → length (select_keys row_skey (is_in_shard shard_id) rows) ≤ inbox_page_size
      → expire_pages order expiry_time shard_id
          (page_count (length (select_keys row_skey (is_in_shard shard_id) rows)))
          0
          rows
        ≡ expire_by (has (select_keys row_skey (is_in_shard shard_id) rows)) expiry_time rows
  unfolding expire_pages set_expiration has
  expire_pages_lem shard_id rows few =
      let keys : List String = select_keys row_skey (is_in_shard shard_id) rows in
      elim (List-cases keys) [
        | inl empty ↦ rw empty (sym (expire_by-none expiry_time rows))
        | inr (y, ys, e) ↦
            let one : page_count (length keys) ≡ 1 = omega (arith, few, ap length e) in
            let start : 0 * inbox_page_size ≡ 0 = omega arith in
            let page : take inbox_page_size (drop (0 * inbox_page_size) (order 0 keys))
                ≡ order 0 keys =
              ap (λ n. take inbox_page_size (drop n (order 0 keys))) start
              ∙ take_all inbox_page_size (order 0 keys)
                  (omega (arith, answers.length-order 0 keys, few)) in
            ap (λ n. expire_pages order expiry_time shard_id n 0 rows) one
            ∙ ap (λ b. set_expiration b expiry_time rows) page
            ∙ expire_by-ap (has (order 0 keys)) (has keys) expiry_time rows
                (answers.has-order 0 keys)
      ]

  AreFew-expire_by :
      (p : String → Bool) (shards : List ℕ) (rows : List InboxRow)
      → AreFew shards rows
      → AreFew shards (expire_by p expiry_time rows)
  AreFew-expire_by p [] rows few = tt
  AreFew-expire_by p (s ∷ shards) rows (here, rest) = (
    omega (
      arith,
      here,
      ap length (select_keys-expire_by p expiry_time (λ shard. nat_beq shard s) rows),
    ),
    AreFew-expire_by p shards rows rest,
  )

  expire_shards_lem :
      (shards : List ℕ) (rows : List InboxRow)
      → AreFew shards rows
      → expire_shards order expiry_time shards rows
        ≡ expire_by (has (keys_in shards rows)) expiry_time rows
  unfolding expire_shards has
  expire_shards_lem [] rows few = sym (
      ap (λ keys. expire_by (has keys) expiry_time rows) (keys_in-nil rows)
      ∙ expire_by-none expiry_time rows)
  expire_shards_lem (s ∷ shards) rows (here, rest) =
      let p : String → Bool = has (select_keys row_skey (is_in_shard s) rows) in
      let next : List InboxRow = expire_by p expiry_time rows in
      ap (expire_shards order expiry_time shards) (expire_pages_lem s rows here)
      ∙ expire_shards_lem shards next (AreFew-expire_by p shards rows rest)
      ∙ ap (λ keys. expire_by (has keys) expiry_time next)
          (select_keys-expire_by p expiry_time (has shards) rows)
      ∙ expire_by-expire_by p (has (keys_in shards rows)) (has (keys_in (s ∷ shards) rows))
          expiry_time rows (λ k. sym (has-keys_in s shards rows k))

  expire_blocks_lem :
      (fuel page_size : ℕ) (shards : List ℕ) (rows : List BlockRow)
      → length rows < page_size
      → expire_blocks order expiry_time (suc fuel) page_size shards 0 0 rows
        ≡ some (expire_blocks_by (has_row block_key (is_left shards) rows) expiry_time rows)
  unfolding expire_blocks
  expire_blocks_lem fuel page_size shards rows few =
      let keys : List String = select_keys block_key (is_left shards) rows in
      let below : length (order 0 keys) < page_size = omega (
        arith,
        few,
        answers.length-order 0 keys,
        length-select_keys-le block_key (is_left shards) rows,
      ) in
      let page : take page_size (order 0 keys) ≡ order 0 keys =
        take_all page_size (order 0 keys) (omega (arith, below)) in
      let last : ltb (length (order 0 keys)) page_size ≡ true = ground (arith, below) in
      rw (expire_blocks, page, last)
        (ap some (
          set_block_expiry_lem (order 0 keys) (has_row block_key (is_left shards) rows) expiry_time
            rows
            (λ k. answers.has-order 0 keys k ∙ has-select_keys block_key (is_left shards) rows k)))

  pub update_block_expiry_timestamp_paginated_lem :
      (shards : List ℕ) (page_size : ℕ) (db : Db)
      → length db.blocks < page_size
      → update_block_expiry_timestamp_paginated order expiry_time shards page_size db
        ≡ some (record db {
          blocks =
              expire_blocks_by (has_row block_key (is_left shards) db.blocks) expiry_time db.blocks;
        })
  unfolding update_block_expiry_timestamp_paginated
  update_block_expiry_timestamp_paginated_lem shards page_size db below =
      rw
        (
          update_block_expiry_timestamp_paginated,
          expire_blocks_lem (length db.blocks) page_size shards db.blocks below,
        )
        refl

  pub set_expiry_time_for_transactions_lem :
      (shards : List ℕ) (db : Db)
      → AreFew shards db.storage_node
      → set_expiry_time_for_transactions order expiry_time shards db ≡ record db {
        storage_node = expire_by (is_removed shards db.storage_node) expiry_time db.storage_node;
      }
  unfolding set_expiry_time_for_transactions
  set_expiry_time_for_transactions_lem shards db few =
      ap (λ rows. record db { storage_node = rows })
        (expire_shards_lem shards db.storage_node few
          ∙ expire_by-ap (has (keys_in shards db.storage_node)) (is_removed shards db.storage_node)
              expiry_time db.storage_node
              (has-select_keys row_skey (λ row. has shards row.namespace_shard_id) db.storage_node))
