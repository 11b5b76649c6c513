-- ===== src/StorageSyncClient.antt =====
-- services/messaging/storageSyncClient.ts: what the node knows of a view that it fetches, in memory and
-- in `storage_sync_info`.
use push_snode.Base.{
  ℕ, String, List, [], ◌∷◌, ◌++◌, Option, none, some, Result, ok, throw, undefined_property,
  if◌then◌else◌, nat_beq, length,
}
use push_snode.SyncTable.{
  SyncDb, SyncStatus, synced, FlowType, Fields, get_storage_sync_info,
  update_info_in_storage_sync_table,
}
use push_snode.Views.{no_fields}

pub record StorageSyncClient : Type 0 where
  pub node_url : Option String
  pub shards : List ℕ
  pub already_synced_shard_ids : List ℕ
  pub view_name : String
  pub flow_type : FlowType
  pub last_synced_page_number : ℕ
  pub currently_syncing_shard : Option ℕ
  pub total_count : ℕ

abbrev pub page_size : ℕ
page_size = 20

-- The row of the client is updated.
abbrev pub update_info : StorageSyncClient → Fields → SyncDb → SyncDb
update_info client fields db =
    update_info_in_storage_sync_table client.view_name client.flow_type fields db

unfoldable pub update_last_synced_page_number :
    ℕ → StorageSyncClient → SyncDb → StorageSyncClient × SyncDb
update_last_synced_page_number page_number client db = (
  record client { last_synced_page_number = page_number },
  update_info client (record no_fields { last_synced_page_number = some page_number }) db,
)

unfoldable pub update_currently_syncing_shard :
    ℕ → StorageSyncClient → SyncDb → StorageSyncClient × SyncDb
update_currently_syncing_shard shard client db = (
  record client { currently_syncing_shard = some shard },
  update_info client (record no_fields { currently_syncing_shard_id = some shard }) db,
)

-- The status is written when there are as many synced shards as shards.
abbrev pub new_status : StorageSyncClient → List ℕ → Option SyncStatus
new_status client already_synced =
    if nat_beq (length already_synced) (length client.shards) then some synced else none

-- Without exactly one row of the view, a property of `null` is read.
unfoldable pub update_already_synced_shards :
    ℕ → StorageSyncClient → SyncDb → (StorageSyncClient × SyncDb) × Result (Unit {0})
update_already_synced_shards shard_id client db = elim (get_storage_sync_info client.view_name db) [
  | none ↦ ((client, db), throw undefined_property)
  | some row ↦
      let already_synced = row.already_synced_shards ++ (shard_id ∷ []) in
      (
        (
          record client { already_synced_shard_ids = already_synced },
          update_info client
              (record no_fields {
                sync_status = new_status client already_synced;
                already_syned_shard_id = some shard_id;
              })
              db,
        ),
        ok tt,
      )
]
