-- ===== src/BlockUtil/Tests.antt =====
-- The toy block and its transaction.
use push_snode.Base.{
  ℕ, String, ◌≡◌, ◌↔◌, ◌<◌, refl, List, [], ◌∷◌, some, ok, length, nat_eq, string_eq,
}
use push_snode.Base.JsSet.{has, add}
use push_snode.Ext.Toy.{toy, toy_tx, toy_block}
use push_snode.Utilz.StrUtil
use push_snode.Utilz.ChainUtil.{
  parse_caip_address, check_components, no_prefix, is_full_caip_address,
}
use push_snode.PushSdkUtil.{check_push_network_signature, message_bytes_to_hash_bytes}
use push_snode.BlockUtil.CheckR.{pass}
use push_snode.BlockUtil.Shards.{
  calculate_affected_shard, calculate_affected_shards, calculate_affected_shards_tx,
}
use push_snode.BlockUtil.Shards.Laws.{
  block_touches, has-calculate_affected_shards, calculate_affected_shard-lt,
}
use push_snode.BlockUtil.Signers.{
  check_signers, recover_signer_address, validator_view, check_block_as_snode,
}
use push_snode.BlockUtil.Signers.Laws.{IsSignedAt, check_block_as_snode_iff}
use push_snode.BlockUtil.Tx.{
  check_tx, check_tx_payload, has_min_size, check_validator_token_format, check_attest_token_format,
  check_tx_signature,
}
use push_snode.BlockUtil.Tx.Laws.{IsAccepted, IsReadable, check_tx_iff, check_tx_payload_iff}
use push_snode.BlockUtil.Attestor.{Limits, check_block_as_attestor, check_block_finalized}
use push_snode.BlockUtil.Attestor.Laws.{check_block_finalized-snode}

shards : calculate_affected_shards toy toy_block 4 ≡ ok (1 ∷ 2 ∷ [])
unfolding calculate_affected_shards calculate_affected_shards_tx calculate_affected_shard has add
    parse_caip_address check_components no_prefix StrUtil.length StrUtil.is_empty StrUtil.split
    StrUtil.is_empty_or_null StrUtil.has_size StrUtil.is_space StrUtil.is_blank StrUtil.starts_with
    StrUtil.substring
shards = refl

has-calculate_affected_shards_example : has {A = ℕ} (1 ∷ 2 ∷ []) 2 ≡ block_touches toy 4 2 toy_block
has-calculate_affected_shards_example =
    has-calculate_affected_shards toy toy_block 4 2 (1 ∷ 2 ∷ []) shards

shard : calculate_affected_shard toy "eip155:1:0xBBBBBB" 4 ≡ ok (some 2)
unfolding calculate_affected_shard parse_caip_address check_components no_prefix StrUtil.length
    StrUtil.is_empty StrUtil.split StrUtil.is_empty_or_null StrUtil.has_size StrUtil.is_space
    StrUtil.is_blank StrUtil.starts_with StrUtil.substring
shard = refl

calculate_affected_shard-lt_example : 2 < 4
calculate_affected_shard-lt_example = calculate_affected_shard-lt toy "eip155:1:0xBBBBBB" 4 2 shard

abbrev validators : List String
validators = "0xU" ∷ "0xV" ∷ []

check_block_as_snode_iff_example :
    (check_block_as_snode toy toy_block validators 2 ≡ ok pass)
    ↔ ((length toy_block.signers ≡ 2) × ((i : ℕ) → i < 2 → IsSignedAt toy validators toy_block i))
check_block_as_snode_iff_example = check_block_as_snode_iff toy validators toy_block 2 refl

check_tx_iff_example : (check_tx toy toy_tx ≡ ok pass) ↔ IsAccepted toy toy_tx
check_tx_iff_example = check_tx_iff toy toy_tx

check_tx_payload_iff_example : (check_tx_payload toy toy_tx ≡ ok pass) ↔ IsReadable toy toy_tx
check_tx_payload_iff_example = check_tx_payload_iff toy toy_tx

abbrev limits : Limits
limits = record {
  max_transaction_size_bytes = 1000;
  max_total_transaction_size_bytes = 5000;
  max_transactions_per_block = 10;
  attestor_max_block_age_seconds = 60;
}

-- Two milliseconds after the time of the block.
finalized : check_block_finalized toy limits toy_block validators 2 1700000000125 ≡ ok pass
unfolding check_block_finalized check_block_as_attestor check_attest_token_format
    check_validator_token_format has_min_size has check_tx check_tx_payload check_tx_signature
    is_full_caip_address parse_caip_address check_components no_prefix StrUtil.length
    StrUtil.is_empty StrUtil.split StrUtil.is_empty_or_null StrUtil.has_size StrUtil.is_space
    StrUtil.is_blank StrUtil.starts_with StrUtil.substring recover_signer_address validator_view
    check_signers check_push_network_signature message_bytes_to_hash_bytes
finalized = refl

check_block_finalized-snode_example : check_block_as_snode toy toy_block validators 2 ≡ ok pass
check_block_finalized-snode_example =
    check_block_finalized-snode toy limits validators toy_block 2 1700000000125 refl finalized
