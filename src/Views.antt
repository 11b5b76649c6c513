-- ===== src/Views.antt =====
-- services/block/block.ts: the views of its blocks that a node offers to others, read page by page. A
-- view is a table with a copy of the blocks. `ORDER BY ts` leaves rows of one time in no order: how a
-- request orders them is an argument, which may differ from request to request.
pub mod Laws
pub mod Pages
mod Tests
use push_snode.Base.{
  ℕ, zero, suc, ◌+◌, ◌-◌, ◌*◌, String, Bool, true, false, not, ◌&&◌, ◌||◌, List, [], ◌∷◌, ◌++◌,
  Option, none, some, Result, ok, throw, invalid_input, no_such_view, if◌then◌else◌, filter, map,
  any, take, drop, length, nat_beq, ltb, ◌==◌, guard, string_eq, nat_eq,
}
use push_snode.Base.JsSet.{has, of_list}
use push_snode.Base.JsMap.{get}
use push_snode.Base.Steps.{Step, return, lift, write, ◌>>=◌, ◌>>◌}
use push_snode.Db.{BlockRow, Db}
use push_snode.Utilz.StrUtil
use push_snode.Utilz.BitUtil.Hex.{hex0x_remove}
use push_snode.Utilz.BitUtil.Positions.{sort_numbers_asc}
use push_snode.Ext.{Ext}
use push_snode.BlockStorage.{get_bulk_block_hashes}
use push_snode.SyncTable.{
  NodeSyncInfo, ViewRow, SyncDb, Fields, flow_out, get_storage_sync_info,
  create_record_in_storage_sync_table, update_info_in_storage_sync_table, drop_view,
}

-- Whether a row is answered before another one of the same time.
abbrev pub TieOrder : Type 0
TieOrder = ViewRow → ViewRow → Bool

-- The order of insertion.
abbrev pub as_inserted : TieOrder
as_inserted earlier later = false

-- `ORDER BY ts DESC`
unfoldable pub insert_newest : TieOrder → ViewRow → List ViewRow → List ViewRow
insert_newest tie row [] = row ∷ []
insert_newest tie row (r ∷ rows) =
    let rest = insert_newest tie row rows in
    if ltb row.ts r.ts || (nat_beq row.ts r.ts && tie r row) then r ∷ rest else row ∷ r ∷ rows

unfoldable pub newest_first : TieOrder → List ViewRow → List ViewRow
unfolding insert_newest
newest_first tie [] = []
newest_first tie (row ∷ rows) = insert_newest tie row (newest_first tie rows)

-- `WHERE EXISTS (SELECT 1 FROM jsonb_array_elements(object_shards) ...)`
abbrev pub has_any : List ℕ → List ℕ → Bool
has_any shard_ids object_shards = any (λ shard. has shard_ids shard) object_shards

abbrev pub same_shards : List ℕ → List ℕ → Bool
same_shards [] [] = true
same_shards [] (y ∷ ys) = false
same_shards (x ∷ xs) [] = false
same_shards (x ∷ xs) (y ∷ ys) = x == y && same_shards xs ys

-- the columns of the `SELECT DISTINCT`
abbrev pub same_row : ViewRow → ViewRow → Bool
same_row a b =
    a.object_hash == b.object_hash
    && (same_shards a.object_shards b.object_shards && nat_beq a.ts b.ts)

unfoldable pub distinct : List ViewRow → List ViewRow
distinct [] = []
distinct (row ∷ rows) = row ∷ filter (λ r. not (same_row row r)) (distinct rows)

-- the rows of the query
unfoldable pub matching : List ℕ → List ViewRow → List ViewRow
unfolding distinct
matching shard_ids rows = distinct (filter (λ row. has_any shard_ids row.object_shards) rows)

-- ... in the order in which a request gets them, before `LIMIT` and `OFFSET`
unfoldable pub filtered_blocks : TieOrder → List ℕ → List ViewRow → List ViewRow
unfolding newest_first matching
filtered_blocks tie shard_ids rows = newest_first tie (matching shard_ids rows)

abbrev pub hashes_of : List ViewRow → List String
hashes_of rows = map (λ (row : ViewRow). row.object_hash) rows

abbrev pub no_fields : Fields
no_fields = record {
  last_synced_page_number = none;
  currently_syncing_shard_id = none;
  sync_status = none;
  already_syned_shard_id = none;
  expiry_ts = none;
}

-- The rows of a table, which throws where the table is not there.
abbrev pub select_from : String → SyncDb → Result (List ViewRow)
select_from view_name db = elim (get db.views view_name) [
  | none ↦ throw no_such_view
  | some rows ↦ ok rows
]

-- The page is noted if there is anything on it.
abbrev pub note_page : String → ℕ → List String → SyncDb → SyncDb
note_page view_name page_number [] db = db
note_page view_name page_number (h ∷ hs) db =
    update_info_in_storage_sync_table view_name flow_out
      (record no_fields { last_synced_page_number = some page_number }) db

-- The statements after the two checks, with the rows of the table.
abbrev pub answer_page :
    TieOrder
    → String
    → List ℕ
    → ℕ
    → ℕ
    → SyncDb
    → Result (List ViewRow)
    → SyncDb × Result (List String)
answer_page tie view_name shard_ids page_number page_size db (throw e) = (db, throw e)
answer_page tie view_name shard_ids page_number page_size db (ok rows) =
    let result : List String = hashes_of (
      take page_size (drop ((page_number - 1) * page_size) (filtered_blocks tie shard_ids rows))) in
    (note_page view_name page_number result db, ok result)

-- The call that is to move the expiry of the view: `updateInfoInStorageSyncTable` does not read it.
abbrev pub touch_view : String → ℕ → SyncDb → SyncDb
touch_view view_name one_day_later db =
    update_info_in_storage_sync_table view_name flow_out
      (record no_fields { expiry_ts = some one_day_later }) db

unfoldable pub get_paginated_block_hash_from_view :
    TieOrder → String → List ℕ → ℕ → ℕ → ℕ → Step SyncDb (List String)
unfolding filtered_blocks
get_paginated_block_hash_from_view tie view_name shard_ids page_number page_size one_day_later =
    lift
      (guard (not (StrUtil.is_empty view_name) && not (nat_beq (length shard_ids) 0)) invalid_input)
    >> lift (guard (ltb 0 page_number && ltb 0 page_size) invalid_input)
    >> write (touch_view view_name one_day_later)
    >> (λ db.
        answer_page tie view_name shard_ids page_number page_size db (select_from view_name db))

-- The table has no null in `object_raw`.
unfoldable pub get_block_info_from_view_based_on_block_hashs :
    String → List String → SyncDb → Result (List String)
get_block_info_from_view_based_on_block_hashs view_name block_hashs db =
    elim (select_from view_name db) [
      | throw e ↦ throw e
      | ok rows ↦ ok (
          map (λ (row : ViewRow). row.object_raw)
            (filter (λ row. has block_hashs row.object_hash) rows))
    ]

-- `SEND`, `DO_NOT_SEND`
pub data HashReply : Type 0 where
  send do_not_send : HashReply

unfoldable pub get_bulk_blocks_by_hash : Ext → Db → List String → List HashReply
get_bulk_blocks_by_hash ext db block_hashes =
    let hashes = map (λ h. ext.to_lower_case (hex0x_remove ext.to_lower_case h)) block_hashes in
    let found_hashes = of_list (get_bulk_block_hashes db hashes) in
    map (λ h. if has found_hashes h then do_not_send else send) hashes

-- What `createViewOfBlocksBasedOnShardIds` answers: a view and the number of its rows, or an error.
pub data ViewReply : Type 0 where
  view_reply : String → ℕ → ViewReply
  empty_shards no_rows query_error : ViewReply

abbrev pub view_row : BlockRow → ViewRow
view_row row = record {
  object_hash = row.object_hash;
  object_shards = row.object_shards;
  object_raw = row.object_raw;
  ts = row.ts;
}

-- The copy: what has one of the shards and is older than now, newest first.
unfoldable pub view_rows : TieOrder → ℕ → List ℕ → List BlockRow → List ViewRow
unfolding newest_first
view_rows tie now shards blocks = newest_first tie (
    map view_row
      (filter (λ row. ltb (1000 * row.ts) now && has_any shards row.object_shards) blocks))

-- `snodeUrl && snodeUrl.length != 0 ? snodeUrl : null`
abbrev pub url_or_null : Option String → Option String
url_or_null none = none
url_or_null (some url) = if StrUtil.is_empty url then none else some url

abbrev pub created_reply : String → ℕ → SyncDb × Result (Unit {0}) → SyncDb × ViewReply
created_reply view_name count (db, ok u) = (db, view_reply view_name count)
created_reply view_name count (db, throw e) = (db, query_error)

-- A view that is there already. Its name is not empty.
abbrev pub existing : String → SyncDb → Option ℕ
existing view_name db = elim (get_storage_sync_info view_name db) [
  | none ↦ none
  | some row ↦ if StrUtil.is_empty row.view_name then none else some row.total_count
]

-- `view_name` ends with the random number; `is_zero` is how the driver's answer to `COUNT(*)` compares
-- with the number 0.
unfoldable pub create_view_of_blocks_based_on_shard_ids :
    TieOrder → (ℕ → Bool) → Db → ℕ → String → List ℕ → Option String → SyncDb → SyncDb × ViewReply
unfolding view_rows sort_numbers_asc
create_view_of_blocks_based_on_shard_ids tie is_zero blocks_db now view_name [] snode_url db =
    (db, empty_shards)
create_view_of_blocks_based_on_shard_ids tie is_zero blocks_db now view_name (shard ∷ shards)
      snode_url db =
    let sorted = sort_numbers_asc (shard ∷ shards) in
    elim (existing view_name db) [
      | some total_count ↦ (db, view_reply view_name total_count)
      | none ↦ elim (get db.views view_name) [
        | some rows ↦ (db, query_error)
        | none ↦
            let rows = view_rows tie now sorted blocks_db.blocks in
            let count = length rows in
            let db' : SyncDb = record db { views = db.views ++ ((view_name, rows) ∷ []) } in
            if is_zero count
            then (drop_view view_name db', no_rows)
            else created_reply view_name count (
                create_record_in_storage_sync_table view_name flow_out count sorted
                  (url_or_null snode_url) (some (now + 86400000)) db')
      ]
    ]
