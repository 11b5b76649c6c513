-- ===== src/PushPutBlock/Tests.antt =====
-- The toy block, sent twice in one request, after an empty text.
use push_snode.Base.{
  String, ◌≡◌, refl, true, false, List, [], ◌∷◌, none, nat_eq, string_eq, pair_eq, length,
}
use push_snode.Base.JsSet.{has, add, of_list, IsDistinct}
use push_snode.Base.JsMap.{get, keys}
use push_snode.Ext.Toy.{toy}
use push_snode.Db.{Db}
use push_snode.Utilz.Coll.{intersect_set}
use push_snode.BlockUtil.Signers.{
  check_block_as_snode, recover_signer_address, validator_view, check_signers,
}
use push_snode.BlockUtil.Shards.{
  calculate_affected_shards, calculate_affected_shards_tx, calculate_affected_shard,
}
use push_snode.Utilz.ChainUtil.{parse_caip_address, check_components, no_prefix}
use push_snode.Utilz.StrUtil
use push_snode.Utilz.BitUtil.Hex.{
  bytes_to_base16, base16_to_bytes, decode_hex, ascii_to_base16, hex0x_remove, pad_even,
}
use push_snode.StorageContractState.{get_node_shards}
use push_snode.BlockStorage.{save_block_with_shard_data, block_hashes}
use push_snode.DbHelper.{
  inbox_keys, put_value_in_storage_table, hash_tx_as_hex, upsert_inbox, index_transaction_category,
}
use push_snode.IndexStorage.{
  unpack_block_to_inboxes, is_skipped, calculate_recipients, put_payload_to_inbox,
}
use push_snode.StorageNode.{Node, checked_shards, handle_block, hash_block_as_hex}
use push_snode.PushPutBlock.{
  accepted, rejected, empty_block_data, duplicate, store_block, handle_one_block, execute,
}
use push_snode.PushPutBlock.Laws.{accepted_hashes, execute_lem}

abbrev node : Node
node = record {
  val_contract_state = record {
    vnodes = ("0xV", record { node_id = "0xV"; url = none; node_type = 0; node_status = 0 }) ∷ [];
    snodes = [];
    anodes = [];
    val_per_block = 2;
    val_per_block_target = 2;
    node_random_min_count = 1;
    node_random_ping_count = 1;
  };
  storage_contract_state = record {
    use_signer = true;
    node_address = "0xN";
    rf = 1;
    shard_count = 4;
    node_shard_map = ("0xN", 1 ∷ []) ∷ [];
    shard_to_nodes_map = (1, "0xN" ∷ []) ∷ [];
  };
}

abbrev empty : Db
empty = record {
  blocks = [];
  storage_node = [];
  push_keys = [];
  push_wallets = [];
  contract_shards = [];
}

abbrev texts : List String
texts = "" ∷ "0x07" ∷ "7" ∷ []

answers :
    (execute toy node texts empty).1
    ≡ rejected empty_block_data ∷ accepted ∷ rejected duplicate ∷ []
unfolding execute handle_one_block store_block base16_to_bytes hex0x_remove pad_even decode_hex
    ascii_to_base16 handle_block checked_shards check_block_as_snode recover_signer_address
    validator_view check_signers of_list keys calculate_affected_shards calculate_affected_shards_tx
    calculate_affected_shard has add parse_caip_address check_components no_prefix StrUtil.length
    StrUtil.is_empty StrUtil.split StrUtil.is_empty_or_null StrUtil.has_size StrUtil.is_space
    StrUtil.is_blank StrUtil.starts_with StrUtil.substring save_block_with_shard_data
    unpack_block_to_inboxes get_node_shards intersect_set get is_skipped put_payload_to_inbox
    put_value_in_storage_table index_transaction_category upsert_inbox hash_tx_as_hex
    bytes_to_base16 hash_block_as_hex calculate_recipients inbox_keys block_hashes
answers = refl

execute_lem_example :
    let (db', result) = execute toy node texts empty in
    (length result ≡ 3)
    × IsDistinct (accepted_hashes toy texts result)
    × ((hash : String)
        → has (accepted_hashes toy texts result) hash ≡ true
        → (has (block_hashes []) hash ≡ false) × (has (block_hashes db'.blocks) hash ≡ true))
    × ((hash : String)
        → has (block_hashes []) hash ≡ true
        → has (block_hashes db'.blocks) hash ≡ true)
execute_lem_example = execute_lem toy node texts empty
