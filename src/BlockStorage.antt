-- ===== src/BlockStorage.antt =====
-- services/messaging/BlockStorage.ts: the blocks that the node stores, and its shards.
pub mod Laws
mod Tests
use push_snode.Base.{
  ℕ, String, Bool, true, false, List, [], ◌∷◌, ◌++◌, Option, none, some, ok, ◌/◌, filter,
  if◌then◌else◌, map, nat_beq, any, ◌==◌, ltb, nat_eq, string_eq,
}
use push_snode.Base.JsSet.{has, of_list}
use push_snode.Base.JsMap.{JsMap, set}
use push_snode.Base.Steps.{Step}
use push_snode.Ext.{Ext}
use push_snode.Proto.{Block}
use push_snode.Db.{Db, BlockRow, ContractShardsRow}

-- the primary key of `blocks`
unfoldable pub block_hashes : List BlockRow → List String
block_hashes [] = []
block_hashes (row ∷ rows) = row.object_hash ∷ block_hashes rows

-- `WHERE object_hash = ANY($1)`
unfoldable pub get_bulk_block_hashes : Db → List String → List String
unfolding block_hashes
get_bulk_block_hashes db block_hash = filter (λ h. has block_hash h) (block_hashes db.blocks)

-- the loop of `getBlockHashMap`
pub fill_hash_map : List String → List String → JsMap String Bool → JsMap String Bool
fill_hash_map block_hashes_res [] m = m
fill_hash_map block_hashes_res (hash ∷ hashes) m =
    fill_hash_map block_hashes_res hashes (set m hash (has block_hashes_res hash))

unfoldable pub get_block_hash_map : Db → List String → JsMap String Bool
unfolding fill_hash_map get_bulk_block_hashes
get_block_hash_map db hashes = fill_hash_map (get_bulk_block_hashes db hashes) hashes []

-- `INSERT INTO blocks ... ON CONFLICT DO NOTHING`, and the number of rows that it affects
pub insert_block : BlockRow → Db → Db × ℕ
unfolding block_hashes
insert_block row db =
    if has (block_hashes db.blocks) row.object_hash
    then (db, 0)
    else (record db { blocks = db.blocks ++ row ∷ [] }, 1)

-- the row of a block
abbrev pub block_row : Ext → Block → String → List ℕ → String → BlockRow
block_row ext mb calculated_hash shard_set mb_raw = record {
  object_hash = calculated_hash;
  object = ext.block_to_json mb;
  object_shards = shard_set;
  object_raw = mb_raw;
  ts = mb.ts / 1000;
  expiry_ts = none;
}

-- `requiresProcessing` of the insertion
abbrev inserted : Db × ℕ → Db × Bool
inserted (db, res) = (db, nat_beq res 1)

-- True if the block is new.
unfoldable pub save_block_with_shard_data : Ext → Block → String → List ℕ → String → Db → Db × Bool
unfolding insert_block block_hashes
save_block_with_shard_data ext mb calculated_hash shard_set mb_raw db =
    if has (block_hashes db.blocks) calculated_hash
    then (db, false)
    else inserted (insert_block (block_row ext mb calculated_hash shard_set mb_raw) db)

-- `ORDER BY ts DESC LIMIT 1`
pub latest : List ContractShardsRow → Option ContractShardsRow → Option ContractShardsRow
latest [] found = found
latest (row ∷ rows) none = latest rows (some row)
latest (row ∷ rows) (some found) =
    latest rows (if ltb found.ts row.ts then some row else some found)

-- `new Set(arr)` of the assigned shards
abbrev shards_of : Option ContractShardsRow → List ℕ
shards_of none = []
shards_of (some row) = of_list row.shards_assigned

unfoldable pub load_node_shards : Db → List ℕ
unfolding latest
load_node_shards db = shards_of (latest db.contract_shards none)

-- The time of the insertion is the key of the row, and a second row of one time is dropped.
unfoldable pub save_node_shards : ℕ → List ℕ → Db → Db
save_node_shards now node_shards db =
    if any (λ (row : ContractShardsRow). nat_beq row.ts now) db.contract_shards
    then db
    else (let row : ContractShardsRow = record { ts = now; shards_assigned = node_shards } in
        record db { contract_shards = db.contract_shards ++ row ∷ [] })
