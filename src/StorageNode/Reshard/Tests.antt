-- ===== src/StorageNode/Reshard/Tests.antt =====
-- A node that had the shard 1 is assigned the shard 2.
use push_snode.Base.{
  ℕ, String, ◌≡◌, refl, true, List, [], ◌∷◌, Option, none, some, ok, nat_eq, string_eq, arith,
  Result,
}
use push_snode.Base.JsSet.{has, of_list}
use push_snode.Db.{Db}
use push_snode.Utilz.Coll.{substract_set}
use push_snode.BlockStorage.{load_node_shards}
use push_snode.IndexStorage.Expiry.{block_key, select_keys}
use push_snode.IndexStorage.Removal.{is_left}
use push_snode.IndexStorage.Removal.Laws.{IsAnswer, has_row, expire_blocks_by}
use push_snode.SyncTable.{SyncDb}
use push_snode.Views.{ViewReply, view_reply}
use push_snode.StorageNode.{Node}
use push_snode.StorageNode.Reshard.{handle_reshard}
use push_snode.StorageNode.Reshard.Completes.{handle_reshard_lem}

abbrev node : Node
node = record {
  val_contract_state = record {
    vnodes = [];
    snodes =
        ("0xB", record { node_id = "0xB"; url = some "http://b"; node_type = 1; node_status = 0 })
        ∷ [];
    anodes = [];
    val_per_block = 1;
    val_per_block_target = 1;
    node_random_min_count = 1;
    node_random_ping_count = 1;
  };
  storage_contract_state = record {
    use_signer = true;
    node_address = "0xN";
    rf = 1;
    shard_count = 4;
    node_shard_map = ("0xN", 2 ∷ []) ∷ ("0xB", 2 ∷ []) ∷ [];
    shard_to_nodes_map = (2, "0xN" ∷ "0xB" ∷ []) ∷ [];
  };
}

-- The queries are answered in the order of insertion.
abbrev in_order : ℕ → List String → List String
in_order i keys = keys

in_order-IsAnswer : IsAnswer in_order
in_order-IsAnswer = record { has-order = λ i keys k. refl; length-order = λ i keys. refl }

abbrev one_view : Option String → List ℕ → Result ViewReply
one_view url shards = ok (view_reply "vw" 7)

abbrev db : Db
db = record {
  blocks =
      record {
        object_hash = "01";
        object = "{}";
        object_shards = 1 ∷ [];
        object_raw = "07";
        ts = 1700000000;
        expiry_ts = none;
      }
      ∷ [];
  storage_node = [];
  push_keys = [];
  push_wallets = [];
  contract_shards = record { ts = 5; shards_assigned = 1 ∷ [] } ∷ [];
}

abbrev no_views : SyncDb
no_views = record { storage_sync_info = []; views = [] }

handle_reshard_lem_example :
    (db' : Db) × (sync' : SyncDb) × (handle_reshard node in_order one_view 1000 9
        (some (2 ∷ []))
        (db, no_views)
      ≡ some (db', sync'))
    × (db'.storage_node ≡ [])
    × (db'.blocks
        ≡ expire_blocks_by (has_row block_key (is_left (1 ∷ [])) db.blocks) 86401000 db.blocks)
    × ((s : ℕ) → has (load_node_shards db') s ≡ has (2 ∷ []) s)
    × ((now' saved_at' : ℕ)
        → handle_reshard node in_order one_view now' saved_at' (some (2 ∷ [])) (db', sync')
          ≡ some (db', sync'))
unfolding load_node_shards of_list has substract_set select_keys
handle_reshard_lem_example =
    handle_reshard_lem in_order in_order-IsAnswer node one_view 1000 9 (2 ∷ []) db no_views 2
      ((refl, tt)) refl refl ((omega arith, tt)) (omega arith) ((omega arith, tt))
