-- ===== src/BlockPolling/Tests.antt =====
-- A node that offers the toy block, and one that fetches it.
use push_snode.Base.{
  ℕ, ◌+◌, String, ◌≡◌, refl, true, List, [], ◌∷◌, none, some, throw, no_such_view, nat_eq,
  string_eq, pair_eq, length,
}
use push_snode.Base.JsSet.{has, add, of_list}
use push_snode.Base.JsMap.{get, keys}
use push_snode.Ext.Toy.{toy, toy_block}
use push_snode.Db.{Db}
use push_snode.BlockUtil.Signers.{
  check_block_as_snode, recover_signer_address, validator_view, check_signers,
}
use push_snode.BlockUtil.Shards.{
  calculate_affected_shards, calculate_affected_shards_tx, calculate_affected_shard,
}
use push_snode.Utilz.ChainUtil.{parse_caip_address, check_components, no_prefix}
use push_snode.Utilz.StrUtil
use push_snode.Utilz.BitUtil.Hex.{
  bytes_to_base16, base16_to_bytes, decode_hex, ascii_to_base16, pad_even,
}
use push_snode.StorageNode.{Node, checked_shards, hash_block_as_hex}
use push_snode.StorageNode.History.{History}
use push_snode.SyncTable.{SyncDb, ViewRow, NodeSyncInfo, flow_in, syncing}
use push_snode.StorageSyncClient.{StorageSyncClient}
use push_snode.Views.{TieOrder, as_inserted, filtered_blocks, matching, distinct}
use push_snode.Views.Laws.{view_has}
use push_snode.BlockPolling.{
  Remote, client_round, ClientRun, Shared, serve, process_client, start_client,
}
use push_snode.BlockPolling.Fetching.{IsServable, IsStored}
use push_snode.BlockPolling.Clients.{no_rounds, next_round}
use push_snode.BlockPolling.Clients.Safety.{Rounds-History}
use push_snode.BlockPolling.Laws.{process_client_lem}

abbrev node : Node
node = record {
  val_contract_state = record {
    vnodes = ("0xV", record { node_id = "0xV"; url = none; node_type = 0; node_status = 0 }) ∷ [];
    snodes = [];
    anodes = [];
    val_per_block = 2;
    val_per_block_target = 2;
    node_random_min_count = 1;
    node_random_ping_count = 1;
  };
  storage_contract_state = record {
    use_signer = true;
    node_address = "0xN";
    rf = 1;
    shard_count = 4;
    node_shard_map = ("0xN", 1 ∷ []) ∷ [];
    shard_to_nodes_map = (1, "0xN" ∷ []) ∷ [];
  };
}

abbrev empty : Db
empty = record {
  blocks = [];
  storage_node = [];
  push_keys = [];
  push_wallets = [];
  contract_shards = [];
}

abbrev row : ViewRow
row = record { object_hash = "01"; object_shards = 1 ∷ 2 ∷ []; object_raw = "07"; ts = 1700000000 }

abbrev server : SyncDb
server = record { storage_sync_info = []; views = ("vw", row ∷ []) ∷ [] }

servable : IsServable toy node row
unfolding checked_shards check_block_as_snode check_signers recover_signer_address validator_view
    of_list keys calculate_affected_shards calculate_affected_shards_tx calculate_affected_shard has
    add parse_caip_address check_components no_prefix StrUtil.length StrUtil.is_empty StrUtil.split
    StrUtil.is_empty_or_null StrUtil.has_size StrUtil.is_space StrUtil.is_blank StrUtil.starts_with
    StrUtil.substring base16_to_bytes decode_hex ascii_to_base16 pad_even bytes_to_base16
    hash_block_as_hex
servable = record {
  bytes = 7 ∷ [];
  block = toy_block;
  shards = 1 ∷ 2 ∷ [];
  is_hex = refl;
  is_block = refl;
  passes = refl;
  is_hash = refl;
}

abbrev in_order : ℕ → TieOrder
in_order page = as_inserted

abbrev client : StorageSyncClient
client = record {
  node_url = some "http://b";
  shards = 1 ∷ [];
  already_synced_shard_ids = [];
  view_name = "vw";
  flow_type = flow_in;
  last_synced_page_number = 1;
  currently_syncing_shard = none;
  total_count = 1;
}

abbrev sync_row : NodeSyncInfo
sync_row = record {
  view_name = "vw";
  flow_type = flow_in;
  last_synced_page_number = 1;
  total_count = 1;
  snode_url = some "http://b";
  shard_ids = 1 ∷ [];
  current_syncing_shard_id = 1;
  sync_status = syncing;
  already_synced_shards = [];
  expiry_ts = none;
}

abbrev shared : Shared
shared = record { sync = record { storage_sync_info = sync_row ∷ []; views = [] }; db = empty }

process_client_lem_example :
    (run' : ClientRun) × (sh' : Shared) × (process_client toy node
        (serve in_order 5 server)
        1
        (length (filtered_blocks as_inserted (1 ∷ []) (row ∷ [])) + 2)
        (start_client client)
        shared
      ≡ some (run', sh'))
    × History toy empty sh'.db
    × ((h : String) → view_has (1 ∷ []) (row ∷ []) h ≡ true → IsStored sh'.db h)
unfolding get StrUtil.is_empty matching distinct has
process_client_lem_example =
    process_client_lem toy node in_order 5 server "vw" (row ∷ []) refl refl ((servable, tt)) 1
      ((tt, tt)) client shared refl refl

-- a node that answers nothing
abbrev silent : Remote
silent = record {
  push_get_block_hash_from_view = λ view_name shard_id page size. throw no_such_view;
  push_get_blocks_from_hashes = λ view_name hashes. throw no_such_view;
}

abbrev first_clients : List (Remote × ClientRun)
first_clients = (silent, start_client client) ∷ (serve in_order 5 server, start_client client) ∷ []

-- The second client takes the first round, and the first client the next.
abbrev one_round : ClientRun × Shared
one_round = client_round toy node (serve in_order 5 server) 1 (start_client client) shared

abbrev two_rounds : ClientRun × Shared
two_rounds = client_round toy node silent 1 (start_client client) one_round.1

Rounds-History_example : History toy empty two_rounds.1.db
unfolding start_client
Rounds-History_example =
    Rounds-History toy 1 first_clients shared
      ((silent, two_rounds.0) ∷ (serve in_order 5 server, one_round.0) ∷ []) two_rounds.1
      (next_round [] ((serve in_order 5 server, one_round.0) ∷ []) silent (start_client client)
        one_round.1
        (next_round ((silent, start_client client) ∷ []) [] (serve in_order 5 server)
          (start_client client) shared no_rounds refl node)
        refl node)
