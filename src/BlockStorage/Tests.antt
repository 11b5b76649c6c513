-- ===== src/BlockStorage/Tests.antt =====
-- A block that is saved twice.
use push_snode.Base.{◌≡◌, Bool, not, [], ◌∷◌, string_eq}
use push_snode.Base.JsSet.{has, add}
use push_snode.Ext.Toy.{toy, toy_block}
use push_snode.Db.{Db}
use push_snode.BlockStorage.{block_hashes, save_block_with_shard_data}
use push_snode.BlockStorage.Laws.{save_block_with_shard_data_lem}

abbrev empty : Db
empty = record {
  blocks = [];
  storage_node = [];
  push_keys = [];
  push_wallets = [];
  contract_shards = [];
}

abbrev saved : Db × Bool
saved = save_block_with_shard_data toy toy_block "01" (1 ∷ 2 ∷ []) "07" empty

save_block_with_shard_data_lem_example :
    (block_hashes saved.0.blocks ≡ add (block_hashes empty.blocks) "01")
    × (saved.1 ≡ not (has (block_hashes empty.blocks) "01"))
    × (saved.0.storage_node ≡ empty.storage_node)
save_block_with_shard_data_lem_example =
    save_block_with_shard_data_lem toy toy_block "01" (1 ∷ 2 ∷ []) "07" empty
