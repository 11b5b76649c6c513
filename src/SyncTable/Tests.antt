-- ===== src/SyncTable/Tests.antt =====
-- Three views, of which one has expired and another is synced.
use push_snode.Base.{ℕ, String, ◌≡◌, refl, [], ◌∷◌, Option, some, none, string_eq}
use push_snode.SyncTable.{
  NodeSyncInfo, SyncDb, SyncStatus, syncing, synced, flow_out, drop_views, view_names, is_expired,
  is_synced, drop_expired_tables, drop_synced_tables,
}
use push_snode.SyncTable.Laws.{without_views, drop_tables_lem}

abbrev row : String → SyncStatus → Option ℕ → NodeSyncInfo
row name status expiry_ts = record {
  view_name = name;
  flow_type = flow_out;
  last_synced_page_number = 1;
  total_count = 3;
  snode_url = none;
  shard_ids = 1 ∷ 2 ∷ [];
  current_syncing_shard_id = 1;
  sync_status = status;
  already_synced_shards = [];
  expiry_ts = expiry_ts;
}

abbrev db : SyncDb
db = record {
  storage_sync_info =
      row "a" syncing (some 5) ∷ row "b" synced (some 20) ∷ row "c" syncing none ∷ [];
  views = ("a", []) ∷ ("b", []) ∷ ("c", []) ∷ [];
}

expired : drop_expired_tables 10 db ≡ record {
  storage_sync_info = row "b" synced (some 20) ∷ row "c" syncing none ∷ [];
  views = ("b", []) ∷ ("c", []) ∷ [];
}
unfolding drop_expired_tables drop_views
expired = refl

drop_tables_lem_example :
    (drop_expired_tables 10 db ≡ without_views (view_names (is_expired 10) db) db)
    × (drop_synced_tables db ≡ without_views (view_names is_synced db) db)
drop_tables_lem_example = drop_tables_lem 10 db
