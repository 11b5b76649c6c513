-- ===== src/IndexStorage/Tests.antt =====
-- The toy block, on a node that serves one of its shards.
use push_snode.Base.{◌≡◌, refl, true, [], ◌∷◌, ok, nat_eq, string_eq, pair_eq}
use push_snode.Base.JsSet.{has, add, add_all, of_list}
use push_snode.Base.JsMap.{get}
use push_snode.Ext.Toy.{toy, toy_block}
use push_snode.Db.{Db}
use push_snode.Utilz.StrUtil
use push_snode.Utilz.Coll.{intersect_set}
use push_snode.Utilz.ChainUtil.{parse_caip_address, check_components, no_prefix}
use push_snode.Utilz.BitUtil.Hex.{bytes_to_base16}
use push_snode.BlockUtil.Shards.{calculate_affected_shard}
use push_snode.StorageContractState.{StorageContractState, get_node_shards}
use push_snode.DbHelper.{
  inbox_keys, put_value_in_storage_table, hash_tx_as_hex, upsert_inbox, index_transaction_category,
}
use push_snode.IndexStorage.{
  unpack_block_to_inboxes, is_skipped, calculate_recipients, put_payload_to_inbox,
}
use push_snode.IndexStorage.Laws.{block_keys, unpack_block_to_inboxes-keys}

abbrev st : StorageContractState
st = record {
  use_signer = true;
  node_address = "0xN";
  rf = 1;
  shard_count = 4;
  node_shard_map = ("0xN", 2 ∷ 3 ∷ []) ∷ [];
  shard_to_nodes_map = [];
}

abbrev empty : Db
empty = record {
  blocks = [];
  storage_node = [];
  push_keys = [];
  push_wallets = [];
  contract_shards = [];
}

abbrev unpacked : Db
unpacked = (unpack_block_to_inboxes toy st toy_block (1 ∷ 2 ∷ []) empty).0

unpacks : unpack_block_to_inboxes toy st toy_block (1 ∷ 2 ∷ []) empty ≡ (unpacked, ok tt)
unfolding calculate_affected_shard has add parse_caip_address check_components no_prefix
    StrUtil.length StrUtil.is_empty StrUtil.split StrUtil.is_empty_or_null StrUtil.has_size
    StrUtil.is_space StrUtil.is_blank StrUtil.starts_with StrUtil.substring unpack_block_to_inboxes
    get_node_shards intersect_set of_list get is_skipped put_payload_to_inbox
    put_value_in_storage_table index_transaction_category upsert_inbox hash_tx_as_hex
    bytes_to_base16 calculate_recipients inbox_keys
unpacks = refl

serves : get_node_shards st ≡ ok (2 ∷ 3 ∷ [])
unfolding get_node_shards get StrUtil.is_empty
serves = refl

unpack_block_to_inboxes-keys_example :
    (inbox_keys unpacked.storage_node
      ≡ add_all
          (inbox_keys empty.storage_node)
          (block_keys toy st.shard_count (intersect_set (1 ∷ 2 ∷ []) (2 ∷ 3 ∷ [])) toy_block.txobj))
    × (unpacked.blocks ≡ empty.blocks)
unpack_block_to_inboxes-keys_example =
    unpack_block_to_inboxes-keys toy st toy_block (1 ∷ 2 ∷ []) (2 ∷ 3 ∷ []) empty unpacked serves
      unpacks
