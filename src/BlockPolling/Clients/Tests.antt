-- ===== src/BlockPolling/Clients/Tests.antt =====
-- A view of two shards, one of them synced.
use push_snode.Base.{◌≡◌, [], ◌∷◌, ◌++◌, some, none, nat_eq, string_eq}
use push_snode.SyncTable.{SyncDb, flow_in, syncing}
use push_snode.BlockPolling.Clients.{
  NodeMap, clients_of, get_node_pooling_info, construct_node_shard_map,
}
use push_snode.BlockPolling.Clients.Laws.{wanted, construct_node_shard_map_lem}

abbrev half_synced : SyncDb
half_synced = record {
  storage_sync_info =
      record {
        view_name = "vw";
        flow_type = flow_in;
        last_synced_page_number = 3;
        total_count = 50;
        snode_url = some "http://b";
        shard_ids = 1 ∷ 2 ∷ [];
        current_syncing_shard_id = 2;
        sync_status = syncing;
        already_synced_shards = 1 ∷ [];
        expiry_ts = none;
      }
      ∷ [];
  views = [];
}

abbrev no_clients : NodeMap
no_clients = []

construct_node_shard_map_lem_example :
    clients_of (construct_node_shard_map half_synced no_clients) 1
    ≡ clients_of no_clients 1 ++ wanted 1 (get_node_pooling_info half_synced)
construct_node_shard_map_lem_example = construct_node_shard_map_lem half_synced no_clients 1
