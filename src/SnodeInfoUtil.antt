-- ===== src/SnodeInfoUtil.antt =====
-- utilz/snodeInfoUtil.ts: which other nodes have the shards that this node has to fetch.
pub mod Laws
mod Tests
use push_snode.Base.{
  ℕ, String, List, [], ◌∷◌, Option, none, some, not, ◌==◌, if◌then◌else◌, string_eq, nat_eq,
}
use push_snode.Base.JsSet.{add}
use push_snode.Base.JsMap.{JsMap, get, set}
use push_snode.ValidatorContractState.{NodeInfo}
use push_snode.StorageContractState.{
  StorageContractState, nodes_or_empty, get_storage_nodes_for_shard,
}

-- `nodeIds.get(node).add(shardId)`, or a new set
unfoldable pub add_shard : ℕ → String → JsMap String (List ℕ) → JsMap String (List ℕ)
add_shard shard_id node node_ids = elim (get node_ids node) [
  | none ↦ set node_ids node (shard_id ∷ [])
  | some shards ↦ set node_ids node (add shards shard_id)
]

-- the loop over the nodes of a shard, without the node itself
unfoldable pub add_nodes_of_shard :
    String → ℕ → List String → JsMap String (List ℕ) → JsMap String (List ℕ)
unfolding add_shard
add_nodes_of_shard node_address shard_id [] node_ids = node_ids
add_nodes_of_shard node_address shard_id (node ∷ nodes) node_ids =
    add_nodes_of_shard node_address shard_id nodes
      (if not (node == node_address) then add_shard shard_id node node_ids else node_ids)

-- No nodes, and no entry for a shard, add nothing.
unfoldable pub add_shards :
    StorageContractState → List ℕ → JsMap String (List ℕ) → JsMap String (List ℕ)
unfolding add_nodes_of_shard
add_shards st [] node_ids = node_ids
add_shards st (shard_id ∷ shards) node_ids = add_shards st shards (
    add_nodes_of_shard st.node_address shard_id
      (nodes_or_empty (get_storage_nodes_for_shard st shard_id)) node_ids)

-- `nodeIds`, which `init` empties before
unfoldable pub get_node_id_from_shard_id : StorageContractState → List ℕ → JsMap String (List ℕ)
unfolding add_shards
get_node_id_from_shard_id st shards = add_shards st shards []

-- `mapNodeInfoToShards`: the nodes that are known, with their shards
unfoldable pub get_node_info_from_node_id :
    JsMap String NodeInfo → JsMap String (List ℕ) → List (NodeInfo × List ℕ)
get_node_info_from_node_id storage_nodes_map [] = []
get_node_info_from_node_id storage_nodes_map ((node_id, shards) ∷ node_ids) =
    let rest = get_node_info_from_node_id storage_nodes_map node_ids in
    elim (get storage_nodes_map node_id) [
      | none ↦ rest
      | some node_info ↦ (node_info, shards) ∷ rest
    ]

-- `mapNodeInfoToShards` after `init`
unfoldable pub init :
    StorageContractState → JsMap String NodeInfo → List ℕ → List (NodeInfo × List ℕ)
unfolding get_node_id_from_shard_id get_node_info_from_node_id
init st storage_nodes_map shards =
    get_node_info_from_node_id storage_nodes_map (get_node_id_from_shard_id st shards)
