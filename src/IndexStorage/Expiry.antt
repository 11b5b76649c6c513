-- ===== src/IndexStorage/Expiry.antt =====
-- What expires (IndexStorage.ts): the rows of the inboxes and the blocks are deleted page by page
-- after their expiry time. A query with `LIMIT` answers the first rows in the order of insertion.
pub mod Laws
pub mod Termination
mod Tests
use push_snode.Base.{
  ℕ, zero, suc, ◌+◌, ◌*◌, ◌/◌, String, Bool, true, false, not, ◌&&◌, List, [], ◌∷◌, Option, none,
  some, if◌then◌else◌, length, filter, take, drop, all, ltb, nat_beq, nat_eq, string_eq,
}
use push_snode.Base.JsSet.{has}
use push_snode.Db.{Db, InboxRow, BlockRow}

-- The rows of a table, with the column by which they are deleted and the test of a query.
module _ {R : Type 0} (key : R → String) (test : R → Bool) where
  -- `SELECT key FROM table WHERE test`
  unfoldable pub select_keys : List R → List String
  select_keys [] = []
  select_keys (row ∷ rows) = if test row then key row ∷ select_keys rows else select_keys rows

  -- `DELETE FROM table WHERE key IN (SELECT key FROM batch)`
  abbrev pub delete_keys : List String → List R → List R
  delete_keys batch rows = filter (λ row. not (has batch (key row))) rows

  -- `for (i = 0; i < rounds; i++)`: the first page of what is left to delete
  pub delete_rounds : ℕ → ℕ → List R → List R
  unfolding select_keys
  delete_rounds zero page_size rows = rows
  delete_rounds (suc rounds) page_size rows =
      delete_rounds rounds page_size (delete_keys (take page_size (select_keys rows)) rows)

-- `expiration_ts < $1`; a null is not below
abbrev pub is_before : ℕ → Option ℕ → Bool
is_before now none = false
is_before now (some ts) = ltb ts now

abbrev pub inbox_page_size : ℕ
inbox_page_size = 1000

-- `Math.ceil(count / pageSize)`
abbrev pub page_count : ℕ → ℕ
page_count count = (count + 999) / inbox_page_size

abbrev pub expired_row : ℕ → InboxRow → Bool
expired_row now row = is_before now row.expiration_ts

abbrev pub row_skey : InboxRow → String
row_skey row = row.skey

-- The loop runs once more than there are pages. Nothing is done where nothing has expired.
unfoldable pub delete_shards_from_inboxes : ℕ → Db → Db
unfolding delete_rounds
delete_shards_from_inboxes current_time db =
    let count = length (select_keys row_skey (expired_row current_time) db.storage_node) in
    if nat_beq count 0 then db else record db {
      storage_node =
          delete_rounds row_skey (expired_row current_time) (suc (page_count count)) inbox_page_size
            db.storage_node;
    }

abbrev pub expired_block : ℕ → BlockRow → Bool
expired_block now row = is_before now row.expiry_ts

abbrev pub block_key : BlockRow → String
block_key row = row.object_hash

-- The offset advances although the rows before it are gone. Without a result the fuel is spent.
pub delete_blocks_loop : ℕ → ℕ → ℕ → ℕ → List BlockRow → Option (List BlockRow)
unfolding select_keys
delete_blocks_loop zero expiry_ts page_size offset rows = none
delete_blocks_loop (suc fuel) expiry_ts page_size offset rows =
    let batch =
      take page_size (drop offset (select_keys block_key (expired_block expiry_ts) rows)) in
    let rows' = delete_keys block_key (expired_block expiry_ts) batch rows in
    if ltb (length batch) page_size
    then some rows'
    else delete_blocks_loop fuel expiry_ts page_size (offset + page_size) rows'

unfoldable pub delete_expired_blocks_paginated : ℕ → ℕ → Db → Option (List BlockRow)
unfolding delete_blocks_loop
delete_expired_blocks_paginated expiry_ts page_size db =
    delete_blocks_loop (suc (length db.blocks)) expiry_ts page_size 0 db.blocks
