-- ===== src/StorageNode/Reshard.antt =====
-- services/messaging/storageNode.ts: the node is assigned other shards. What it loses expires in a day;
-- what it gets is asked for at the other nodes, as views that are fetched afterwards.
pub mod Laws
pub mod Completes
mod Tests
use push_snode.Base.{
  ℕ, zero, suc, ◌+◌, String, Bool, true, false, not, ◌&&◌, List, [], ◌∷◌, Option, none, some,
  Result, ok, throw, if◌then◌else◌, length, nat_beq, ◌==◌, nat_eq, string_eq,
}
use push_snode.Db.{Db}
use push_snode.Utilz.StrUtil
use push_snode.Utilz.Coll.{is_equal_set}
use push_snode.ValidatorContractState.{NodeInfo}
use push_snode.BlockStorage.{load_node_shards, save_node_shards}
use push_snode.IndexStorage.Removal.{
  set_expiry_time_for_transactions, update_block_expiry_timestamp_paginated,
}
use push_snode.SyncTable.{SyncDb, flow_in, create_record_in_storage_sync_table}
use push_snode.Views.{ViewReply, view_reply, empty_shards, no_rows, query_error}
use push_snode.SnodeInfoUtil.{init}
use push_snode.StorageNode.{Node, ShardStatus, get_shard_status}

-- A view with rows is recorded. A second row of its name is an error, which is logged.
abbrev pub record_view : ViewReply → List ℕ → Option String → SyncDb → SyncDb
record_view (view_reply view_id count) shards url sync =
    if not (nat_beq count 0) && not (StrUtil.is_empty view_id)
    then (create_record_in_storage_sync_table view_id flow_in count shards url none sync).0
    else sync
record_view empty_shards shards url sync = sync
record_view no_rows shards url sync = sync
record_view query_error shards url sync = sync

-- `getViewDetails` of a node at its url; an error of it is logged.
module _ (get_view_details : Option String → List ℕ → Result ViewReply) where
  unfoldable pub add_view : String → NodeInfo → List ℕ → SyncDb → SyncDb
  add_view node_address node_info shards sync =
      if not (nat_beq (length shards) 0) && not (node_info.node_id == node_address)
      then (elim (get_view_details node_info.url shards) [
        | throw e ↦ sync
        | ok response ↦ record_view response shards node_info.url sync
      ])
      else sync

  -- The nodes are asked at once; their rows stand in the order of the nodes here.
  unfoldable pub add_views : String → List (NodeInfo × List ℕ) → SyncDb → SyncDb
  unfolding add_view
  add_views node_address [] sync = sync
  add_views node_address ((node_info, shards) ∷ nodes) sync =
      add_views node_address nodes (add_view node_address node_info shards sync)

-- The branch of shards to delete; `now` is the time in milliseconds.
unfoldable pub expire_shards_to_delete :
    (ℕ → List String → List String) → ℕ → List ℕ → Db → Option Db
expire_shards_to_delete order now [] db = some db
expire_shards_to_delete order now (shard ∷ shards) db =
    update_block_expiry_timestamp_paginated order (now + 86400000) (shard ∷ shards) 1000
      (set_expiry_time_for_transactions order (now + 86400000) (shard ∷ shards) db)

-- The branch of shards to add, without the polling that it starts.
unfoldable pub sync_shards_to_add :
    Node
    → (Option String → List ℕ → Result ViewReply)
    → ℕ
    → List ℕ
    → List ℕ
    → Db × SyncDb
    → Db × SyncDb
unfolding add_views
sync_shards_to_add node get_view_details saved_at new_shards [] s = s
sync_shards_to_add node get_view_details saved_at new_shards (shard ∷ shards) (db, sync) =
    let asked = init node.storage_contract_state node.val_contract_state.snodes (shard ∷ shards) in
    (
      save_node_shards saved_at new_shards db,
      add_views get_view_details node.storage_contract_state.node_address asked sync,
    )

-- The shards of a node without assignment are null, which is an error before anything is done. There is
-- no result where the loop over the blocks does not end.
unfoldable pub handle_reshard :
    Node
    → (ℕ → List String → List String)
    → (Option String → List ℕ → Result ViewReply)
    → ℕ
    → ℕ
    → Option (List ℕ)
    → Db × SyncDb
    → Option (Db × SyncDb)
unfolding sync_shards_to_add expire_shards_to_delete get_shard_status
handle_reshard node order get_view_details now saved_at none s = some s
handle_reshard node order get_view_details now saved_at (some new_shards) (db, sync) =
    let old_shards = load_node_shards db in
    let status = get_shard_status old_shards new_shards in
    if is_equal_set new_shards old_shards
    then some (db, sync)
    else (elim (expire_shards_to_delete order now status.shards_to_delete db) [
      | none ↦ none
      | some db' ↦ some (
          sync_shards_to_add node get_view_details saved_at new_shards status.shards_to_add
            (db', sync))
    ])
