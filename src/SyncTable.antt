-- ===== src/SyncTable.antt =====
-- services/block/block.ts: the table `storage_sync_info`, with a row for each view that the node fetches
-- from another node (IN) or offers to another node (OUT), and the tables of the views it offers.
pub mod Laws
mod Tests
use push_snode.Base.{
  ℕ, zero, suc, String, Bool, true, false, not, ◌&&◌, List, [], ◌∷◌, ◌++◌, Option, none, some,
  Result, ok, throw, not_null_violation, if◌then◌else◌, filter, map, nat_beq, ◌==◌, get_elem?,
  string_eq, ltb, null_check_failed,
}
use push_snode.Base.Steps.{Step, return}
use push_snode.IndexStorage.Expiry.{is_before}

pub data FlowType : Type 0 where
  flow_in flow_out : FlowType

pub data SyncStatus : Type 0 where
  syncing synced : SyncStatus

abbrev pub same_flow : FlowType → FlowType → Bool
same_flow flow_in flow_in = true
same_flow flow_in flow_out = false
same_flow flow_out flow_in = false
same_flow flow_out flow_out = true

abbrev pub same_status : SyncStatus → SyncStatus → Bool
same_status syncing syncing = true
same_status syncing synced = false
same_status synced syncing = false
same_status synced synced = true

-- A row, without the time of its creation. Numbers that the columns hold as text are numbers.
pub record NodeSyncInfo : Type 0 where
  pub view_name : String
  pub flow_type : FlowType
  pub last_synced_page_number : ℕ
  pub total_count : ℕ
  pub snode_url : Option String
  pub shard_ids : List ℕ
  pub current_syncing_shard_id : ℕ
  pub sync_status : SyncStatus
  pub already_synced_shards : List ℕ
  pub expiry_ts : Option ℕ

-- A row of the table of a view.
pub record ViewRow : Type 0 where
  pub object_hash : String
  pub object_shards : List ℕ
  pub object_raw : String
  pub ts : ℕ

pub record SyncDb : Type 0 where
  pub storage_sync_info : List NodeSyncInfo
  pub views : List (String × List ViewRow)

-- Without a shard, `current_syncing_shard_id` is null.
unfoldable pub create_record_in_storage_sync_table :
    String → FlowType → ℕ → List ℕ → Option String → Option ℕ → Step SyncDb (Unit {0})
create_record_in_storage_sync_table view_name flow zero shard_ids snode_url expiry_time db =
    (db, ok tt)
create_record_in_storage_sync_table view_name flow (suc count) [] snode_url expiry_time db =
    (db, throw not_null_violation)
create_record_in_storage_sync_table view_name flow (suc count) (shard ∷ shards) snode_url
      expiry_time db =
    (
      record db {
        storage_sync_info =
            db.storage_sync_info
            ++ (record {
              view_name = view_name;
              flow_type = flow;
              last_synced_page_number = 1;
              total_count = suc count;
              snode_url = snode_url;
              shard_ids = shard ∷ shards;
              current_syncing_shard_id = shard;
              sync_status = syncing;
              already_synced_shards = [];
              expiry_ts = expiry_time;
            }
                ∷ []);
      },
      ok tt,
    )

-- the rows of a view
abbrev pub rows_of_view : String → List NodeSyncInfo → List NodeSyncInfo
rows_of_view view_name rows = filter (λ row. row.view_name == view_name) rows

-- `queryOneRow`: `null` unless there is exactly one
abbrev pub one_row {ℓ} : {A : Type ℓ} → List A → Option A
one_row [] = none
one_row (row ∷ []) = some row
one_row (row ∷ row' ∷ rows) = none

abbrev pub get_storage_sync_info : String → SyncDb → Option NodeSyncInfo
get_storage_sync_info view_name db = one_row (rows_of_view view_name db.storage_sync_info)

-- `jsonb_insert(shards, '{-1}', shard)`: before the last value
unfoldable pub jsonb_insert : List ℕ → ℕ → List ℕ
jsonb_insert [] shard = shard ∷ []
jsonb_insert (x ∷ []) shard = shard ∷ x ∷ []
jsonb_insert (x ∷ y ∷ xs) shard = x ∷ jsonb_insert (y ∷ xs) shard

-- `fieldToBeUpdated`. Its `expiry_ts` is not read.
pub record Fields : Type 0 where
  pub last_synced_page_number : Option ℕ
  pub currently_syncing_shard_id : Option ℕ
  pub sync_status : Option SyncStatus
  pub already_syned_shard_id : Option ℕ
  pub expiry_ts : Option ℕ

abbrev pub coalesce {ℓ} : {A : Type ℓ} → Option A → A → A
coalesce none old = old
coalesce (some new) old = new

abbrev pub with_shard : Option ℕ → List ℕ → List ℕ
with_shard none shards = shards
with_shard (some shard) shards = jsonb_insert shards shard

abbrev pub update_row : Fields → NodeSyncInfo → NodeSyncInfo
update_row fields row = record row {
  last_synced_page_number = coalesce fields.last_synced_page_number row.last_synced_page_number;
  current_syncing_shard_id =
      coalesce fields.currently_syncing_shard_id row.current_syncing_shard_id;
  sync_status = coalesce fields.sync_status row.sync_status;
  already_synced_shards = with_shard fields.already_syned_shard_id row.already_synced_shards;
}

-- `WHERE view_name = $5 AND flow_type = $6`
abbrev pub is_row : String → FlowType → NodeSyncInfo → Bool
is_row view_name flow row = row.view_name == view_name && same_flow row.flow_type flow

unfoldable pub update_info_in_storage_sync_table : String → FlowType → Fields → SyncDb → SyncDb
unfolding jsonb_insert
update_info_in_storage_sync_table view_name flow fields db = record db {
  storage_sync_info =
      map (λ row. if is_row view_name flow row then update_row fields row else row)
        db.storage_sync_info;
}

-- `DROP TABLE IF EXISTS`
abbrev pub drop_view : String → SyncDb → SyncDb
drop_view view_name db = record db { views = filter (λ v. not (v.0 == view_name)) db.views }

abbrev pub drop_view_row_from_storage_sync_table : String → SyncDb → SyncDb
drop_view_row_from_storage_sync_table view_name db = record db {
  storage_sync_info = filter (λ row. not (row.view_name == view_name)) db.storage_sync_info;
}

-- the loop over the views that are found
unfoldable pub drop_views : List String → SyncDb → SyncDb
drop_views [] db = db
drop_views (name ∷ names) db =
    drop_views names (drop_view_row_from_storage_sync_table name (drop_view name db))

abbrev pub view_names : (NodeSyncInfo → Bool) → SyncDb → List String
view_names test db = map (λ (row : NodeSyncInfo). row.view_name) (filter test db.storage_sync_info)

abbrev pub is_synced : NodeSyncInfo → Bool
is_synced row = same_status row.sync_status synced

abbrev pub is_expired : ℕ → NodeSyncInfo → Bool
is_expired now row = is_before now row.expiry_ts

unfoldable pub drop_synced_tables : SyncDb → SyncDb
unfolding drop_views
drop_synced_tables db = drop_views (view_names is_synced db) db

unfoldable pub drop_expired_tables : ℕ → SyncDb → SyncDb
unfolding drop_views
drop_expired_tables current_time db = drop_views (view_names (is_expired current_time) db) db

abbrev pub get_views_based_on_sync_and_flow_status :
    SyncStatus → FlowType → SyncDb → List NodeSyncInfo
get_views_based_on_sync_and_flow_status status flow db =
    filter (λ row. same_status row.sync_status status && same_flow row.flow_type flow)
      db.storage_sync_info
