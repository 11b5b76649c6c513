-- ===== src/StorageNode/Tests.antt =====
-- A node that serves one of four shards, and a block for it.
use push_snode.StorageNode.Delivery.{InRange, has_item, delivery_lem}
use push_snode.DbHelper.Inbox.{
  desc, no_timestamp, first_micros, get_transactions, PushGetTransactionsResult,
}
use push_snode.Base.{
  String, ◌≤◌, ◌⊎◌, length, ℕ, ◌≡◌, refl, true, false, List, [], ◌∷◌, none, some, ok, nat_eq,
  string_eq, pair_eq,
}
use push_snode.Base.JsSet.{has, add, add_all, of_list}
use push_snode.Base.JsMap.{get, keys}
use push_snode.Ext.Toy.{toy, toy_block}
use push_snode.QueueTypes.{QItem}
use push_snode.Db.{Db}
use push_snode.Utilz.Coll.{intersect_set, substract_set}
use push_snode.BlockUtil.Signers.{check_block_as_snode, recover_signer_address, validator_view}
use push_snode.BlockUtil.Shards.{
  calculate_affected_shards, calculate_affected_shards_tx, calculate_affected_shard,
}
use push_snode.Utilz.ChainUtil.{parse_caip_address, check_components, no_prefix}
use push_snode.Utilz.StrUtil
use push_snode.Utilz.BitUtil.Hex.{bytes_to_base16, base16_to_bytes, decode_hex, ascii_to_base16}
use push_snode.StorageContractState.{get_node_shards}
use push_snode.BlockStorage.{save_block_with_shard_data, block_hashes}
use push_snode.DbHelper.{
  inbox_keys, put_value_in_storage_table, hash_tx_as_hex, upsert_inbox, index_transaction_category,
}
use push_snode.IndexStorage.{
  unpack_block_to_inboxes, is_skipped, calculate_recipients, put_payload_to_inbox,
}
use push_snode.StorageNode.{
  Node, checked_shards, handle_block, accept, hash_block_as_hex, get_shard_status,
}
use push_snode.IndexStorage.Laws.{block_keys}
use push_snode.StorageNode.Checks.{PassesCheck}
use push_snode.StorageNode.Laws.{stored_hash, handle_block-again, handle_block-true}
use push_snode.StorageNode.History.{
  History, beginning, handled, WasChecked, History-WasChecked, History-has,
}
use push_snode.StorageNode.Accept.{IsRefused, IsStored, accept_lem}

abbrev node : Node
node = record {
  val_contract_state = record {
    vnodes = ("0xV", record { node_id = "0xV"; url = none; node_type = 0; node_status = 0 }) ∷ [];
    snodes = [];
    anodes = [];
    val_per_block = 2;
    val_per_block_target = 2;
    node_random_min_count = 1;
    node_random_ping_count = 1;
  };
  storage_contract_state = record {
    use_signer = true;
    node_address = "0xN";
    rf = 1;
    shard_count = 4;
    node_shard_map = ("0xN", 1 ∷ []) ∷ [];
    shard_to_nodes_map = (1, "0xN" ∷ []) ∷ [];
  };
}

abbrev empty : Db
empty = record {
  blocks = [];
  storage_node = [];
  push_keys = [];
  push_wallets = [];
  contract_shards = [];
}

abbrev raw : List ℕ
raw = 7 ∷ []

passes : checked_shards toy node toy_block ≡ ok (1 ∷ 2 ∷ [])
unfolding checked_shards check_block_as_snode recover_signer_address validator_view of_list keys
    calculate_affected_shards calculate_affected_shards_tx calculate_affected_shard has add
    parse_caip_address check_components no_prefix StrUtil.length StrUtil.is_empty StrUtil.split
    StrUtil.is_empty_or_null StrUtil.has_size StrUtil.is_space StrUtil.is_blank StrUtil.starts_with
    StrUtil.substring
passes = refl

handle_block-again_example :
    (handle_block toy node toy_block raw none (handle_block toy node toy_block raw none empty).0
      ≡ ((handle_block toy node toy_block raw none empty).0, ok false))
handle_block-again_example =
    handle_block-again toy node toy_block raw none (1 ∷ 2 ∷ []) empty passes

abbrev after : Db
after = (handle_block toy node toy_block raw none empty).0

-- The block is stored, and is put into the two inboxes of shard 1.
stored :
    (handle_block toy node toy_block raw none empty ≡ (after, ok true))
    × (inbox_keys after.storage_node
        ≡ ("CUSTOM:T", (1, ("eip155:1:0xCCCCC", "02")))
          ∷ ("CUSTOM:T", (1, ("eip155:1:0xAAAAA", "02")))
          ∷ [])
unfolding handle_block checked_shards check_block_as_snode recover_signer_address validator_view
    of_list keys calculate_affected_shards calculate_affected_shards_tx calculate_affected_shard has
    add parse_caip_address check_components no_prefix StrUtil.length StrUtil.is_empty StrUtil.split
    StrUtil.is_empty_or_null StrUtil.has_size StrUtil.is_space StrUtil.is_blank StrUtil.starts_with
    StrUtil.substring save_block_with_shard_data unpack_block_to_inboxes get_node_shards
    intersect_set get is_skipped put_payload_to_inbox put_value_in_storage_table
    index_transaction_category upsert_inbox hash_tx_as_hex bytes_to_base16 hash_block_as_hex
    calculate_recipients inbox_keys
stored = (refl, refl)

in_range : InRange desc 1800000000000000 after.storage_node
unfolding handle_block checked_shards check_block_as_snode recover_signer_address validator_view
    of_list keys calculate_affected_shards calculate_affected_shards_tx calculate_affected_shard has
    add parse_caip_address check_components no_prefix StrUtil.length StrUtil.is_empty StrUtil.split
    StrUtil.is_empty_or_null StrUtil.has_size StrUtil.is_space StrUtil.is_blank StrUtil.starts_with
    StrUtil.substring save_block_with_shard_data unpack_block_to_inboxes get_node_shards
    intersect_set get is_skipped put_payload_to_inbox put_value_in_storage_table
    index_transaction_category upsert_inbox hash_tx_as_hex bytes_to_base16 hash_block_as_hex
    calculate_recipients inbox_keys
in_range = (refl, (refl, tt))

delivery_lem_example :
    (shards node_shards : List ℕ) × (answer : PushGetTransactionsResult) × (checked_shards toy node
        toy_block
      ≡ ok shards)
    × (get_node_shards node.storage_contract_state ≡ ok node_shards)
    × (get_transactions 1800000000 "eip155:1:0xAAAAA" "CUSTOM:T" no_timestamp none after
        ≡ ok answer)
    × ((shard : ℕ) (skey : String)
        → has
            (block_keys toy 4 (intersect_set shards node_shards) toy_block.txobj)
            ("CUSTOM:T", (shard, ("eip155:1:0xAAAAA", skey)))
          ≡ true
        → (has_item answer.items skey ≡ true) ⊎ (30 ≤ length answer.items))
unfolding first_micros StrUtil.is_empty_or_null
delivery_lem_example =
    delivery_lem toy node toy_block raw none empty after 1800000000 "eip155:1:0xAAAAA" "CUSTOM:T"
      no_timestamp none desc 1800000000000000 stored.0 refl refl in_range

handle_block-true_example :
    (shards node_shards : List ℕ) × PassesCheck toy node toy_block
    × (calculate_affected_shards toy toy_block 4 ≡ ok shards)
    × (checked_shards toy node toy_block ≡ ok shards)
    × (get_node_shards node.storage_contract_state ≡ ok node_shards)
    × (has (block_hashes empty.blocks) (stored_hash toy node toy_block raw none) ≡ false)
    × (block_hashes after.blocks
        ≡ add (block_hashes empty.blocks) (stored_hash toy node toy_block raw none))
    × (inbox_keys after.storage_node
        ≡ add_all
            (inbox_keys empty.storage_node)
            (block_keys toy 4 (intersect_set shards node_shards) toy_block.txobj))
handle_block-true_example = handle_block-true toy node toy_block raw none empty after stored.0

history : History toy empty after
history = handled beginning node toy_block raw none

first : has (block_hashes after.blocks) "01" ≡ true
unfolding handle_block checked_shards check_block_as_snode recover_signer_address validator_view
    of_list keys calculate_affected_shards calculate_affected_shards_tx calculate_affected_shard has
    add parse_caip_address check_components no_prefix StrUtil.length StrUtil.is_empty StrUtil.split
    StrUtil.is_empty_or_null StrUtil.has_size StrUtil.is_space StrUtil.is_blank StrUtil.starts_with
    StrUtil.substring save_block_with_shard_data unpack_block_to_inboxes get_node_shards
    intersect_set get is_skipped put_payload_to_inbox put_value_in_storage_table
    index_transaction_category upsert_inbox hash_tx_as_hex bytes_to_base16 hash_block_as_hex
    calculate_recipients inbox_keys block_hashes
first = refl

History-WasChecked_example : WasChecked history "01"
unfolding block_hashes has
History-WasChecked_example = History-WasChecked toy empty after "01" history refl first

again : History toy after (handle_block toy node toy_block (9 ∷ 9 ∷ []) none after).0
again = handled beginning node toy_block (9 ∷ 9 ∷ []) none

History-has_example :
    has (block_hashes (handle_block toy node toy_block (9 ∷ 9 ∷ []) none after).0.blocks) "01"
    ≡ true
History-has_example =
    History-has toy after (handle_block toy node toy_block (9 ∷ 9 ∷ []) none after).0 "01" again
      first

abbrev item : QItem
item = record { id = 1; object = "07"; object_hash = some "01" }

accepted : accept toy node item empty ≡ ((accept toy node item empty).0, ok none)
unfolding accept base16_to_bytes decode_hex ascii_to_base16 handle_block checked_shards
    check_block_as_snode recover_signer_address validator_view of_list keys
    calculate_affected_shards calculate_affected_shards_tx calculate_affected_shard has add
    parse_caip_address check_components no_prefix StrUtil.length StrUtil.is_empty StrUtil.split
    StrUtil.is_empty_or_null StrUtil.has_size StrUtil.is_space StrUtil.is_blank StrUtil.starts_with
    StrUtil.substring save_block_with_shard_data unpack_block_to_inboxes get_node_shards
    intersect_set get is_skipped put_payload_to_inbox put_value_in_storage_table
    index_transaction_category upsert_inbox hash_tx_as_hex bytes_to_base16 hash_block_as_hex
    calculate_recipients inbox_keys
accepted = refl

-- Three shards stay, one goes and two come.
status : get_shard_status (1 ∷ 2 ∷ 3 ∷ 4 ∷ []) (2 ∷ 3 ∷ 4 ∷ 5 ∷ 6 ∷ []) ≡ record {
  shards_to_add = 5 ∷ 6 ∷ [];
  shards_to_delete = 1 ∷ [];
  common_shards = 2 ∷ 3 ∷ 4 ∷ [];
}
unfolding get_shard_status substract_set intersect_set has of_list
status = refl

accept_lem_example :
    let db' : Db = (accept toy node item empty).0 in
    (bytes : List ℕ) × (base16_to_bytes item.object ≡ ok bytes)
    × (IsRefused toy node item bytes empty db' none ⊎ IsStored toy node item bytes empty db' none)
accept_lem_example = accept_lem toy node item empty (accept toy node item empty).0 none accepted
