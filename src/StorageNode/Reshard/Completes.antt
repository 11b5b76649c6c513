-- ===== src/StorageNode/Reshard/Completes.antt =====
-- An assignment with new shards is carried out, once.
use push_snode.Base.{
  ℕ, ◌+◌, ◌<◌, String, ◌≡◌, sym, ap, ◌∙◌, true, false, List, Option, some, inl, inr, Result,
  Bool-cases, length, nat_eq, string_eq, arith,
}
use push_snode.Base.JsSet.{has, IsDistinct, has-of_list}
use push_snode.Db.{Db}
use push_snode.Utilz.Coll.{is_equal_set, substract_set}
use push_snode.Utilz.Coll.Laws.{is_equal_set_iff, has-substract_set}
use push_snode.BlockStorage.{load_node_shards, save_node_shards}
use push_snode.BlockStorage.Laws.{
  AreEarlier, load_node_shards-save_node_shards, load_node_shards-IsDistinct, save_node_shards-rest,
}
use push_snode.IndexStorage.Expiry.{block_key}
use push_snode.IndexStorage.Removal.{is_left}
use push_snode.IndexStorage.Removal.Laws.{
  IsAnswer, AreFew, is_removed, has_row, expire_by, expire_blocks_by,
}
use push_snode.SyncTable.{SyncDb}
use push_snode.Views.{ViewReply}
use push_snode.StorageNode.{Node}
use push_snode.StorageNode.Reshard.{handle_reshard}
use push_snode.StorageNode.Reshard.Laws.{
  expired, expire_shards_to_delete_lem, sync_shards_to_add_lem, handle_reshard-equal,
  handle_reshard-other,
}

-- When the node is assigned distinct shards of which one is new, handling the change ends. The
-- rows of the inboxes whose key is that of a row in a lost shard and the blocks all of whose
-- shards are lost then expire in a day, the other rows and blocks are unchanged, the stored
-- assignment is the new one, and the same assignment does nothing when it is notified again,
-- whatever the other nodes answer. The conditions: no shard that is lost has more rows than a page
-- has, there are fewer than 1000 blocks, all assignments that are stored are older, and the
-- database answers the rows of a query each once, in any order.
pub handle_reshard_lem :
    (order : ℕ → List String → List String) (answers : IsAnswer order) (node : Node)
    (get_view_details : Option String → List ℕ → Result ViewReply) (now saved_at : ℕ)
    (new_shards : List ℕ) (db : Db) (sync : SyncDb) (shard : ℕ)
    → IsDistinct new_shards
    → has new_shards shard ≡ true
    → has (load_node_shards db) shard ≡ false
    → AreFew (substract_set (load_node_shards db) new_shards) db.storage_node
    → length db.blocks < 1000
    → AreEarlier saved_at db.contract_shards
    → let lost = substract_set (load_node_shards db) new_shards in
      (db' : Db) × (sync' : SyncDb) × (handle_reshard node order get_view_details now saved_at
          (some new_shards)
          (db, sync)
        ≡ some (db', sync'))
      × (db'.storage_node
          ≡ expire_by (is_removed lost db.storage_node) (now + 86400000) db.storage_node)
      × (db'.blocks
          ≡ expire_blocks_by
              (has_row block_key (is_left lost) db.blocks)
              (now + 86400000)
              db.blocks)
      × ((s : ℕ) → has (load_node_shards db') s ≡ has new_shards s)
      × ((now' saved_at' : ℕ)
          → handle_reshard node order get_view_details now' saved_at' (some new_shards) (db', sync')
            ≡ some (db', sync'))
handle_reshard_lem order answers node get_view_details now saved_at new_shards db sync shard
      distinct new old few below earlier =
    let lost : List ℕ = substract_set (load_node_shards db) new_shards in
    let db1 : Db = expired lost (now + 86400000) db in
    let db' : Db = save_node_shards saved_at new_shards db1 in
    let different : is_equal_set new_shards (load_node_shards db) ≡ false =
      elim (Bool-cases (is_equal_set new_shards (load_node_shards db))) [
        | inr q ↦ q
        | inl q ↦
            let same : has new_shards shard ≡ has (load_node_shards db) shard =
              (is_equal_set_iff new_shards (load_node_shards db) distinct
                  (load_node_shards-IsDistinct db)).0
                q shard in
            cc
      ] in
    let added : has (substract_set new_shards (load_node_shards db)) shard ≡ true =
      ground (arith, has-substract_set new_shards (load_node_shards db) shard, new, old) in
    let (sync', synced) =
      sync_shards_to_add_lem order answers node get_view_details saved_at new_shards
        (substract_set new_shards (load_node_shards db)) shard db1 sync added in
    let (inboxes, blocks) = save_node_shards-rest saved_at new_shards db1 in
    let loaded : (s : ℕ) → has (load_node_shards db') s ≡ has new_shards s = λ s.
      ap (λ shards. has shards s)
        (load_node_shards-save_node_shards saved_at new_shards db1 earlier)
      ∙ has-of_list new_shards s in
    (
      db',
      sync',
      handle_reshard-other order answers node get_view_details now saved_at new_shards db db1 sync
            different (expire_shards_to_delete_lem order answers now lost db few below)
          ∙ ap some synced,
      inboxes,
      blocks,
      loaded,
      λ now' saved_at'.
          handle_reshard-equal order answers node get_view_details now' saved_at' new_shards db'
            sync'
            ((is_equal_set_iff new_shards (load_node_shards db') distinct
                (load_node_shards-IsDistinct db')).1
              (λ s. sym (loaded s))),
    )
