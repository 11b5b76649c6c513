-- ===== src/SnodeInfoUtil/Tests.antt =====
-- Two other nodes, of which one has no shard that is asked for.
use push_snode.Base.{ℕ, ◌≡◌, refl, true, not, ◌&&◌, [], ◌∷◌, ◌==◌, nat_eq, string_eq}
use push_snode.Base.JsSet.{has, add}
use push_snode.Base.JsMap.{get, set}
use push_snode.StorageContractState.{StorageContractState, get_storage_nodes_for_shard}
use push_snode.SnodeInfoUtil.{get_node_id_from_shard_id, add_shards, add_nodes_of_shard, add_shard}
use push_snode.SnodeInfoUtil.Laws.{is_asked, has_node, is_asked-get_node_id_from_shard_id}

abbrev st : StorageContractState
st = record {
  use_signer = true;
  node_address = "0xA";
  rf = 2;
  shard_count = 4;
  node_shard_map = ("0xA", 0 ∷ 2 ∷ []) ∷ ("0xB", 0 ∷ 1 ∷ 2 ∷ []) ∷ ("0xC", 3 ∷ []) ∷ [];
  shard_to_nodes_map =
      (0, "0xA" ∷ "0xB" ∷ []) ∷ (2, "0xA" ∷ "0xB" ∷ []) ∷ (1, "0xB" ∷ []) ∷ (3, "0xC" ∷ []) ∷ [];
}

asked : get_node_id_from_shard_id st (0 ∷ 2 ∷ 5 ∷ []) ≡ ("0xB", 0 ∷ 2 ∷ []) ∷ []
unfolding get_node_id_from_shard_id add_shards add_nodes_of_shard add_shard
    get_storage_nodes_for_shard get set has add
asked = refl

is_asked-get_node_id_from_shard_id_example :
    is_asked (get_node_id_from_shard_id st (0 ∷ 2 ∷ 5 ∷ [])) "0xB" 2
    ≡ (has {A = ℕ} (0 ∷ 2 ∷ 5 ∷ []) 2 && has_node st 2 "0xB" && not ("0xB" == st.node_address))
is_asked-get_node_id_from_shard_id_example =
    is_asked-get_node_id_from_shard_id st (0 ∷ 2 ∷ 5 ∷ []) "0xB" 2
