-- ===== src/BlockPolling/Clients.antt =====
-- services/block/blockPolling.ts: which clients are started for which shard, and their rounds, of which
-- any client may take the next.
pub mod Laws
pub mod Safety
mod Tests
use push_snode.Base.{
  ℕ, String, ◌≡◌, refl, subst, Bool, true, false, not, ◌&&◌, List, [], ◌∷◌, ◌++◌, Option, none,
  some, if◌then◌else◌, filter, map, nat_beq, nat_beq_iff, nat_eq, ap, Eq, ◌==◌,
}
use push_snode.Base.JsSet.{has, add, add_all, of_list}
use push_snode.Base.JsMap.{JsMap, get, set}
use push_snode.Ext.{Ext}
use push_snode.StorageNode.{Node}
use push_snode.SyncTable.{
  NodeSyncInfo, SyncDb, syncing, flow_in, get_views_based_on_sync_and_flow_status,
}
use push_snode.StorageSyncClient.{
  StorageSyncClient, update_currently_syncing_shard, update_last_synced_page_number,
}
use push_snode.BlockPolling.{Remote, ClientRun, Shared, client_round, start_client}

-- A value in the sets of shards: a JSON number, as the columns hold them, or the text of a number.
pub data ShardKey : Type 0 where
  number text : ℕ → ShardKey

-- `===`
abbrev pub same_key : ShardKey → ShardKey → Bool
same_key (number a) (number b) = nat_beq a b
same_key (number a) (text b) = false
same_key (text a) (number b) = false
same_key (text a) (text b) = nat_beq a b

pub same_key_sound : (a b : ShardKey) → same_key a b ≡ true → a ≡ b
same_key_sound (number a) (number b) h = ap number ((nat_beq_iff a b).0 h)
same_key_sound (number a) (text b) h = cc
same_key_sound (text a) (number b) h = cc
same_key_sound (text a) (text b) h = ap text ((nat_beq_iff a b).0 h)

pub same_key_refl : (a : ShardKey) → same_key a a ≡ true
same_key_refl (number a) = (nat_beq_iff a a).1 refl
same_key_refl (text a) = (nat_beq_iff a a).1 refl

instance abbrev pub shard_key_eq : Eq ShardKey
shard_key_eq = record { same = same_key; same_sound = same_key_sound; same_refl = same_key_refl }

abbrev pub get_node_pooling_info : SyncDb → List NodeSyncInfo
get_node_pooling_info db = get_views_based_on_sync_and_flow_status syncing flow_in db

unfoldable pub add_total_shards : List ShardKey → List NodeSyncInfo → List ShardKey
unfolding add_all
add_total_shards total [] = total
add_total_shards total (node ∷ nodes) =
    add_total_shards (add_all total (map number node.shard_ids)) nodes

-- `add(shard.toString())`
unfoldable pub add_synced_shards : List ShardKey → List NodeSyncInfo → List ShardKey
unfolding add_all
add_synced_shards synced [] = synced
add_synced_shards synced (node ∷ nodes) =
    add_synced_shards (add_all synced (map text node.already_synced_shards)) nodes

unfoldable pub get_shards_that_needs_to_be_synced : List NodeSyncInfo → List ShardKey
unfolding add_total_shards add_synced_shards of_list
get_shards_that_needs_to_be_synced node_info =
    let already_synced_shards = add_synced_shards [] node_info in
    of_list
      (filter (λ shard. not (has already_synced_shards shard)) (add_total_shards [] node_info))

-- `new StorageSyncClient(...)`
abbrev pub client_for : NodeSyncInfo → StorageSyncClient
client_for info = record {
  node_url = info.snode_url;
  shards = info.shard_ids;
  already_synced_shard_ids = info.already_synced_shards;
  view_name = info.view_name;
  flow_type = info.flow_type;
  last_synced_page_number = info.last_synced_page_number;
  currently_syncing_shard = none;
  total_count = info.total_count;
}

abbrev pub NodeMap : Type 0
NodeMap = JsMap ℕ (List StorageSyncClient)

-- `this.nodeMap.get(shardId) || []`
abbrev pub or_empty : Option (List StorageSyncClient) → List StorageSyncClient
or_empty none = []
or_empty (some clients) = clients

abbrev pub clients_of : NodeMap → ℕ → List StorageSyncClient
clients_of node_map shard_id = or_empty (get node_map shard_id)

module _ (shards_to_sync : List ShardKey) where
  unfoldable pub add_client : NodeSyncInfo → ℕ → NodeMap → NodeMap
  add_client info shard_id node_map =
      if has shards_to_sync (number shard_id)
      then set node_map shard_id (clients_of node_map shard_id ++ client_for info ∷ [])
      else node_map

  unfoldable pub add_clients : NodeSyncInfo → List ℕ → NodeMap → NodeMap
  unfolding add_client
  add_clients info [] node_map = node_map
  add_clients info (shard_id ∷ shard_ids) node_map =
      add_clients info shard_ids (add_client info shard_id node_map)

  unfoldable pub add_infos : List NodeSyncInfo → NodeMap → NodeMap
  unfolding add_clients
  add_infos [] node_map = node_map
  add_infos (info ∷ infos) node_map = add_infos infos (add_clients info info.shard_ids node_map)

unfoldable pub construct_node_shard_map : SyncDb → NodeMap → NodeMap
unfolding add_infos get_shards_that_needs_to_be_synced
construct_node_shard_map db node_map =
    let sync_info = get_node_pooling_info db in
    add_infos (get_shards_that_needs_to_be_synced sync_info) sync_info node_map

-- What is written for each client before a shard is polled, in the order of the clients.
unfoldable pub begin_shard : ℕ → List StorageSyncClient → SyncDb → List StorageSyncClient × SyncDb
unfolding update_currently_syncing_shard update_last_synced_page_number
begin_shard shard_id [] db = ([], db)
begin_shard shard_id (client ∷ clients) db =
    let (client', db') = update_currently_syncing_shard shard_id client db in
    let (client'', db'') =
      update_last_synced_page_number client'.last_synced_page_number client' db' in
    let (rest, db''') = begin_shard shard_id clients db'' in (client'' ∷ rest, db''')

-- The rounds of the clients of a shard: each has the node that it asks, the clients before and after it
-- wait. A round of one client is not interrupted by another.
pub data Rounds (ext : Ext) (shard_id : ℕ) (start : List (Remote × ClientRun)) (from : Shared)
    : List (Remote × ClientRun) → Shared → Type 0 where
  no_rounds : Rounds ext shard_id start from start from
  next_round :
      (before after : List (Remote × ClientRun)) (remote : Remote) (run : ClientRun) (sh : Shared)
      → Rounds ext shard_id start from (before ++ (remote, run) ∷ after) sh
      → run.done ≡ false
      → (node : Node)
      → Rounds ext shard_id start from
          (before ++ (remote, (client_round ext node remote shard_id run sh).0) ∷ after)
          (client_round ext node remote shard_id run sh).1
