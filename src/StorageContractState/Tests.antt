-- ===== src/StorageContractState/Tests.antt =====
-- Two nodes that share a shard.
use push_snode.Base.{
  ℕ, ◌+◌, length, Option, none, List, Result, ok, throw, set_empty_check_failed, String, ◌≡◌, ◌<◌,
  ◌^◌, refl, true, [], ◌∷◌, some, arith, ◌==◌, if◌then◌else◌, nat_eq, string_eq,
}
use push_snode.Base.JsSet.{has, IsDistinct, of_list}
use push_snode.Base.JsMap.{JsMap, get, set, keys}
use push_snode.Base.Steps.{Step}
use push_snode.Utilz.StrUtil
use push_snode.Utilz.Coll.{array_to_set}
use push_snode.Utilz.BitUtil.Positions.{get_bit, bits_to_positions}
use push_snode.StorageContractState.{
  with_state, get_node_shards, reload_every_address_and_notify_listeners, StorageContractState,
  nodes_or_empty, get_storage_nodes_for_shard, reload_every_address,
}
use push_snode.StorageContractState.Notify.{reload_every_address_and_notify_listeners_lem}
use push_snode.StorageContractState.Laws.{shards_or_empty, has_bit, reload_every_address_lem}

abbrev contract : String → ℕ
contract addr = if addr == "0xA" then 5 else 6

contract_fits : (addr : String) → contract addr < 2 ^ 32
contract_fits addr = ground arith

abbrev start : StorageContractState
start = record {
  use_signer = true;
  node_address = "0xA";
  rf = 2;
  shard_count = 4;
  node_shard_map = [];
  shard_to_nodes_map = [];
}

abbrev Outcome : Type 0
Outcome = (StorageContractState × ℕ) × Result (Unit {0})

-- What the listener keeps, and the result.
abbrev map_outcome :
    (Outcome → ℕ × Result (Unit {0})) → Option Outcome → Option (ℕ × Result (Unit {0}))
map_outcome f none = none
map_outcome f (some outcome) = some (f outcome)

reloaded :
    reload_every_address contract ("0xA" ∷ "0xB" ∷ []) start
    ≡ some (record start {
      node_shard_map = ("0xA", 0 ∷ 2 ∷ []) ∷ ("0xB", 1 ∷ 2 ∷ []) ∷ [];
      shard_to_nodes_map = (0, "0xA" ∷ []) ∷ (2, "0xA" ∷ "0xB" ∷ []) ∷ (1, "0xB" ∷ []) ∷ [];
    })
unfolding reload_every_address bits_to_positions array_to_set of_list get set
reloaded = refl

-- A listener that counts what it is given.
abbrev count_shards : Option (List ℕ) → JsMap String (List ℕ) → Step ℕ (Unit {0})
count_shards none nodes s = (s, ok tt)
count_shards (some shards) nodes s = (s + length shards, ok tt)

-- The listener of the first node gets its two shards.
notifies :
    map_outcome
      (λ r. (r.0.1, r.1))
      (reload_every_address_and_notify_listeners count_shards contract
        ("0xA" ∷ "0xB" ∷ [])
        (start, 0))
    ≡ some (2, ok tt)
unfolding reload_every_address_and_notify_listeners reload_every_address bits_to_positions
    array_to_set of_list get set get_node_shards StrUtil.is_empty
notifies = refl

-- A node without a shard throws, and its listener is not called.
notifies_no_one :
    map_outcome
      (λ r. (r.0.1, r.1))
      (reload_every_address_and_notify_listeners count_shards contract ("0xB" ∷ []) (start, 0))
    ≡ some (0, throw set_empty_check_failed)
unfolding reload_every_address_and_notify_listeners reload_every_address bits_to_positions
    array_to_set of_list get set get_node_shards StrUtil.is_empty
notifies_no_one = refl

reload_every_address_lem_example :
    (st' : StorageContractState) × (reload_every_address contract ("0xA" ∷ "0xB" ∷ []) start
      ≡ some st')
    × IsDistinct (keys st'.node_shard_map)
    × ((shard : ℕ) (node : String)
        → has (nodes_or_empty (get_storage_nodes_for_shard st' shard)) node
          ≡ has (shards_or_empty (get st'.node_shard_map node)) shard)
    × ((shard : ℕ) (node : String)
        → has ("0xA" ∷ "0xB" ∷ []) node ≡ true
        → has (nodes_or_empty (get_storage_nodes_for_shard st' shard)) node
          ≡ has_bit (contract node) shard)
unfolding keys
reload_every_address_lem_example =
    reload_every_address_lem contract contract_fits ("0xA" ∷ "0xB" ∷ []) start tt

reload_every_address_and_notify_listeners_lem_example :
    (st' : StorageContractState) × (node_shards : List ℕ) × (reload_every_address contract
        ("0xA" ∷ "0xB" ∷ [])
        start
      ≡ some st')
    × ((k : ℕ) → has node_shards k ≡ has_bit (contract "0xA") k)
    × (reload_every_address_and_notify_listeners count_shards contract
          ("0xA" ∷ "0xB" ∷ [])
          (start, 0)
        ≡ some (with_state st' (count_shards (some node_shards) st'.node_shard_map 0)))
unfolding keys has StrUtil.is_empty get_bit
reload_every_address_and_notify_listeners_lem_example =
    reload_every_address_and_notify_listeners_lem count_shards contract contract_fits
      ("0xA" ∷ "0xB" ∷ []) start 0 2 tt refl refl refl refl
