-- ===== src/StorageNode/Reshard/Laws.antt =====
-- What holds after the node is assigned other shards.
use push_snode.Base.{
  ℕ, ◌+◌, ◌<◌, String, ◌≡◌, refl, sym, ap, ◌∙◌, Bool, true, false, List, [], ◌∷◌, List-cases,
  Option, some, inl, inr, Result, length, nat_eq, string_eq, arith,
}
use push_snode.Base.JsSet.{has}
use push_snode.Db.{Db, InboxRow, BlockRow}
use push_snode.Utilz.Coll.{is_equal_set, substract_set}
use push_snode.BlockStorage.{load_node_shards, save_node_shards}
use push_snode.IndexStorage.Expiry.{block_key}
use push_snode.IndexStorage.Removal.{is_left, update_block_expiry_timestamp_paginated}
use push_snode.IndexStorage.Removal.Laws.{
  IsAnswer, AreFew, is_removed, has_row, expire_by, expire_blocks_by,
  set_expiry_time_for_transactions_lem, update_block_expiry_timestamp_paginated_lem,
}
use push_snode.SyncTable.{SyncDb}
use push_snode.Views.{ViewReply}
use push_snode.StorageNode.{Node, get_shard_status}
use push_snode.StorageNode.Reshard.{expire_shards_to_delete, sync_shards_to_add, handle_reshard}

-- The database with the expiry times of what the removed shards held.
abbrev pub expired : List ℕ → ℕ → Db → Db
expired shards t db = record db {
  storage_node = expire_by (is_removed shards db.storage_node) t db.storage_node;
  blocks = expire_blocks_by (has_row block_key (is_left shards) db.blocks) t db.blocks;
}

nothing_removed : (rows : List InboxRow) (k : String) → is_removed [] rows k ≡ false
unfolding has
nothing_removed [] k = refl
nothing_removed (row ∷ rows) k = nothing_removed rows k

never_left : (row : BlockRow) → is_left [] row ≡ false
unfolding has
never_left row = elim (List-cases row.object_shards) [
  | inl e ↦ rw e refl
  | inr (s, ss, e) ↦ rw e (ground arith)
]

nothing_left : (rows : List BlockRow) (k : String) → has_row block_key (is_left []) rows k ≡ false
nothing_left [] k = refl
nothing_left (row ∷ rows) k = ground (arith, never_left row, nothing_left rows k)

expire_by-false :
    (p : String → Bool) (t : ℕ) (rows : List InboxRow)
    → ((k : String) → p k ≡ false)
    → expire_by p t rows ≡ rows
expire_by-false p t [] h = refl
expire_by-false p t (row ∷ rows) h = ground (arith, h row.skey, expire_by-false p t rows h)

expire_blocks_by-false :
    (p : String → Bool) (t : ℕ) (rows : List BlockRow)
    → ((k : String) → p k ≡ false)
    → expire_blocks_by p t rows ≡ rows
expire_blocks_by-false p t [] h = refl
expire_blocks_by-false p t (row ∷ rows) h =
    ground (arith, h row.object_hash, expire_blocks_by-false p t rows h)

module _ (order : ℕ → List String → List String) (answers : IsAnswer order) where
  pub expire_shards_to_delete_lem :
      (now : ℕ) (shards : List ℕ) (db : Db)
      → AreFew shards db.storage_node
      → length db.blocks < 1000
      → expire_shards_to_delete order now shards db ≡ some (expired shards (now + 86400000) db)
  unfolding expire_shards_to_delete
  expire_shards_to_delete_lem now [] db few below =
      let t : ℕ = now + 86400000 in
      ap (λ rows. some (record db { storage_node = rows }))
        (sym (
          expire_by-false (is_removed [] db.storage_node) t db.storage_node
            (nothing_removed db.storage_node)))
      ∙ ap
          (λ rows. some (record db {
            storage_node = expire_by (is_removed [] db.storage_node) t db.storage_node;
            blocks = rows;
          }))
          (sym (
            expire_blocks_by-false (has_row block_key (is_left []) db.blocks) t db.blocks
              (nothing_left db.blocks)))
  expire_shards_to_delete_lem now (s ∷ shards) db few below =
      let t : ℕ = now + 86400000 in
      ap (update_block_expiry_timestamp_paginated order t (s ∷ shards) 1000)
        (set_expiry_time_for_transactions_lem order answers t (s ∷ shards) db few)
      ∙ update_block_expiry_timestamp_paginated_lem order answers t (s ∷ shards) 1000
          (record db {
            storage_node = expire_by (is_removed (s ∷ shards) db.storage_node) t db.storage_node;
          })
          below

  module _ (node : Node) (get_view_details : Option String → List ℕ → Result ViewReply) where
    pub sync_shards_to_add_lem :
        (saved_at : ℕ) (new_shards to_add : List ℕ) (shard : ℕ) (db : Db) (sync : SyncDb)
        → has to_add shard ≡ true
        → (sync' : SyncDb) × (sync_shards_to_add node get_view_details saved_at new_shards to_add
              (db, sync)
            ≡ (save_node_shards saved_at new_shards db, sync'))
    unfolding sync_shards_to_add has
    sync_shards_to_add_lem saved_at new_shards [] shard db sync there = cc
    sync_shards_to_add_lem saved_at new_shards (s ∷ to_add) shard db sync there = (_, refl)

    pub handle_reshard-equal :
        (now saved_at : ℕ) (new_shards : List ℕ) (db : Db) (sync : SyncDb)
        → is_equal_set new_shards (load_node_shards db) ≡ true
        → handle_reshard node order get_view_details now saved_at (some new_shards) (db, sync)
          ≡ some (db, sync)
    unfolding handle_reshard
    handle_reshard-equal now saved_at new_shards db sync same = rw (handle_reshard, same) refl

    pub handle_reshard-other :
        (now saved_at : ℕ) (new_shards : List ℕ) (db db' : Db) (sync : SyncDb)
        → is_equal_set new_shards (load_node_shards db) ≡ false
        → expire_shards_to_delete order now (substract_set (load_node_shards db) new_shards) db
          ≡ some db'
        → handle_reshard node order get_view_details now saved_at (some new_shards) (db, sync)
          ≡ some (
              sync_shards_to_add node get_view_details saved_at new_shards
                (substract_set new_shards (load_node_shards db))
                (db', sync))
    unfolding handle_reshard get_shard_status
    handle_reshard-other now saved_at new_shards db db' sync other e =
        rw (handle_reshard, other, e) refl
