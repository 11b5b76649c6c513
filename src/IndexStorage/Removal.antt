-- ===== src/IndexStorage/Removal.antt =====
-- What a node no longer serves (IndexStorage.ts): the rows of the inboxes of removed shards, and the
-- blocks all of whose shards are removed, get an expiry time, page by page. An update may change the
-- order in which PostgreSQL answers the query of the next page, so that order is an argument: the
-- answer to the query of page `i` is `order i` of the keys.
pub mod Laws
use push_snode.Base.{
  ℕ, zero, suc, ◌+◌, ◌*◌, String, Bool, true, false, not, ◌&&◌, List, [], ◌∷◌, Option, none, some,
  if◌then◌else◌, length, map, take, drop, all, ltb, nat_beq, nat_eq, string_eq,
}
use push_snode.Base.JsSet.{has}
use push_snode.Db.{Db, InboxRow, BlockRow}
use push_snode.IndexStorage.Expiry.{select_keys, page_count, inbox_page_size, row_skey, block_key}

-- `SET expiration_ts = $4 WHERE skey IN (SELECT skey FROM batch)`
unfoldable pub set_expiration : List String → ℕ → List InboxRow → List InboxRow
set_expiration batch expiry_time rows =
    map (λ row. if has batch row.skey then record row { expiration_ts = some expiry_time } else row)
      rows

-- `WHERE namespace_shard_id = $1`
abbrev pub is_in_shard : ℕ → InboxRow → Bool
is_in_shard shard_id row = nat_beq row.namespace_shard_id shard_id

-- `array_agg(...) <@ $1::int[]`, which is null, and no match, for a block without shards
abbrev pub is_left : List ℕ → BlockRow → Bool
is_left shard_ids row =
    not (nat_beq (length row.object_shards) 0) && all (λ s. has shard_ids s) row.object_shards

-- `SET expiry_ts = $4 FROM subset_blocks sb WHERE b.object_hash = sb.object_hash`
unfoldable pub set_block_expiry : List String → ℕ → List BlockRow → List BlockRow
set_block_expiry batch expiry_time rows =
    map
      (λ row.
        if has batch row.object_hash then record row { expiry_ts = some expiry_time } else row)
      rows

module _ (order : ℕ → List String → List String) (expiry_time : ℕ) where
  -- `for (let i = 0; i < pageCount; i++)`, with the pages that are left and `i`
  unfoldable pub expire_pages : ℕ → ℕ → ℕ → List InboxRow → List InboxRow
  unfolding set_expiration select_keys
  expire_pages shard_id zero i rows = rows
  expire_pages shard_id (suc pages) i rows = expire_pages shard_id pages (suc i) (
      set_expiration
        (take inbox_page_size
          (drop (i * inbox_page_size) (order i (select_keys row_skey (is_in_shard shard_id) rows))))
        expiry_time rows)

  unfoldable pub expire_shards : List ℕ → List InboxRow → List InboxRow
  unfolding expire_pages
  expire_shards [] rows = rows
  expire_shards (shard_id ∷ shard_ids) rows =
      let count = length (select_keys row_skey (is_in_shard shard_id) rows) in
      expire_shards shard_ids (expire_pages shard_id (page_count count) 0 rows)

  unfoldable pub set_expiry_time_for_transactions : List ℕ → Db → Db
  unfolding expire_shards
  set_expiry_time_for_transactions shards_to_delete db = record db {
    storage_node = expire_shards shards_to_delete db.storage_node;
  }

  -- `while (true)`. There is no result where the fuel does not last. As many rows are updated as there
  -- are hashes on the page, for the hash is the primary key.
  unfoldable pub expire_blocks : ℕ → ℕ → List ℕ → ℕ → ℕ → List BlockRow → Option (List BlockRow)
  unfolding set_block_expiry select_keys
  expire_blocks zero page_size shard_ids i offset rows = none
  expire_blocks (suc fuel) page_size shard_ids i offset rows =
      let batch =
        take page_size (drop offset (order i (select_keys block_key (is_left shard_ids) rows))) in
      let rows' = set_block_expiry batch expiry_time rows in
      let rest = expire_blocks fuel page_size shard_ids (suc i) (offset + page_size) rows' in
      if ltb (length batch) page_size then some rows' else rest

  -- The blocks of the database with an expiry time. Each full page leaves one row less, at least.
  unfoldable pub update_block_expiry_timestamp_paginated : List ℕ → ℕ → Db → Option Db
  unfolding expire_blocks
  update_block_expiry_timestamp_paginated shard_ids page_size db =
      elim (expire_blocks (suc (length db.blocks)) page_size shard_ids 0 0 db.blocks) [
        | none ↦ none
        | some blocks ↦ some (record db { blocks = blocks })
      ]
