-- ===== src/StorageContractState.antt =====
-- services/messaging-common/storageContractState.ts: which storage node serves which shards. The
-- contract is the function from an address to the mask of its shards.
pub mod Laws
pub mod Notify
mod Tests
use push_snode.Base.{
  ℕ, String, Bool, true, false, not, List, [], ◌∷◌, Option, none, some, Result, ok, throw, ◌>>=◌,
  ◌>>◌, guard, set_empty_check_failed, str_empty_check_failed, nat_eq, string_eq,
}
use push_snode.Base.JsSet.{add}
use push_snode.Base.Steps.{Step}
use push_snode.Base.JsMap.{JsMap, get, set}
use push_snode.Utilz.StrUtil
use push_snode.Utilz.Coll.{array_to_set}
use push_snode.Utilz.BitUtil.Positions.{bits_to_positions}

pub record StorageContractState : Type 0 where
  pub use_signer : Bool
  pub node_address : String
  pub rf : ℕ
  pub shard_count : ℕ
  -- node0xA -> shard0, shard1, shard2
  pub node_shard_map : JsMap String (List ℕ)
  -- shard0 -> node0xA, node0xB
  pub shard_to_nodes_map : JsMap ℕ (List String)

-- the set at a key, or the empty one
abbrev pub nodes_or_empty : Option (List String) → List String
nodes_or_empty none = []
nodes_or_empty (some nodes) = nodes

-- `for (nodeAddr of nodeAddrList)`: the shards of each are read from the contract. There is no
-- result where `bitsToPositions` does not return.
pub assign_shards :
    (String → ℕ) → List String → JsMap String (List ℕ) → Option (JsMap String (List ℕ))
assign_shards get_node_shards_by_addr [] m = some m
assign_shards get_node_shards_by_addr (node_addr ∷ node_addrs) m =
    elim (bits_to_positions (get_node_shards_by_addr node_addr)) [
      | none ↦ none
      | some shards ↦
          assign_shards get_node_shards_by_addr node_addrs (set m node_addr (array_to_set shards))
    ]

-- `for (shard of shardSet)`: the node is added to the set of the shard, which is made if missing.
pub add_node : String → List ℕ → JsMap ℕ (List String) → JsMap ℕ (List String)
add_node node_addr [] m = m
add_node node_addr (shard ∷ shards) m =
    add_node node_addr shards (set m shard (add (nodes_or_empty (get m shard)) node_addr))

-- the loop over `nodeShardMap` that fills `shardToNodesMap`
pub add_nodes : JsMap String (List ℕ) → JsMap ℕ (List String) → JsMap ℕ (List String)
unfolding add_node
add_nodes [] m = m
add_nodes ((node_addr, shard_set) ∷ nodes) m = add_nodes nodes (add_node node_addr shard_set m)

-- `Check.notEmptySet(nodeShards)`
abbrev not_empty_set : Option (List ℕ) → Result (List ℕ)
not_empty_set none = throw set_empty_check_failed
not_empty_set (some []) = throw set_empty_check_failed
not_empty_set (some (shard ∷ shards)) = ok (shard ∷ shards)

unfoldable pub get_node_shards : StorageContractState → Result (List ℕ)
get_node_shards st = do
  guard (not (StrUtil.is_empty st.node_address)) str_empty_check_failed
  not_empty_set (get st.node_shard_map st.node_address)

unfoldable pub get_storage_nodes_for_shard : StorageContractState → ℕ → Option (List String)
get_storage_nodes_for_shard st shard = get st.shard_to_nodes_map shard

-- `shardToNodesMap` is cleared, and filled from the new map.
pub rebuild : StorageContractState → JsMap String (List ℕ) → StorageContractState
unfolding add_nodes
rebuild st m = record st { node_shard_map = m; shard_to_nodes_map = add_nodes m [] }

-- The two maps after the contract is read again.
unfoldable pub reload_every_address :
    (String → ℕ) → List String → StorageContractState → Option StorageContractState
unfolding assign_shards rebuild
reload_every_address get_node_shards_by_addr node_addrs st =
    elim (assign_shards get_node_shards_by_addr node_addrs st.node_shard_map) [
      | none ↦ none
      | some m ↦ some (rebuild st m)
    ]

-- The argument that the listener is called with: this node's shards, if it has a signer.
unfoldable pub notified_shards : StorageContractState → Result (Option (List ℕ))
unfolding get_node_shards
notified_shards st = elim st.use_signer [
  | true ↦ do shards ← get_node_shards st; ok (some shards)
  | false ↦ ok none
]

module _ {S : Type 0} where
  -- What the listener keeps and answers, beside the state.
  abbrev pub with_state :
      StorageContractState → S × Result (Unit {0}) → (StorageContractState × S) × Result (Unit {0})
  with_state st (s, r) = ((st, s), r)

  -- `this.listener.handleReshard(nodeShards, this.nodeShardMap)`, unless the check before it throws
  abbrev pub notify_listener :
      (Option (List ℕ) → JsMap String (List ℕ) → Step S (Unit {0}))
      → StorageContractState
      → Result (Option (List ℕ))
      → Step S (Unit {0})
  notify_listener handle_reshard st (throw e) s = (s, throw e)
  notify_listener handle_reshard st (ok node_shards) s =
      handle_reshard node_shards st.node_shard_map s

  -- The whole of the function, with the listener and its state `S`. The maps are new also when the check
  -- or the listener throws.
  unfoldable pub reload_every_address_and_notify_listeners :
      (Option (List ℕ) → JsMap String (List ℕ) → Step S (Unit {0}))
      → (String → ℕ)
      → List String
      → StorageContractState × S
      → Option ((StorageContractState × S) × Result (Unit {0}))
  unfolding reload_every_address notified_shards
  reload_every_address_and_notify_listeners handle_reshard get_node_shards_by_addr node_addrs
        (st, s) =
      elim (reload_every_address get_node_shards_by_addr node_addrs st) [
        | none ↦ none
        | some st' ↦
            some (with_state st' (notify_listener handle_reshard st' (notified_shards st') s))
      ]
