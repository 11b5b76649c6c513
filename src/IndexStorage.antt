-- ===== src/IndexStorage.antt =====
-- services/messaging/IndexStorage.ts: a block is unpacked into the inboxes of its senders and
-- recipients; what a node no longer serves gets an expiry time, and is deleted after it.
pub mod Laws
pub mod Expiry
pub mod Removal
mod Tests
use push_snode.Base.{
  ℕ, zero, suc, ◌+◌, String, Bool, true, false, not, ◌&&◌, List, [], ◌∷◌, ◌++◌, Option, none, some,
  Result, ok, throw, undefined_property, if◌then◌else◌, length, nat_beq, get_elem?, nat_eq,
}
use push_snode.Base.JsSet.{has}
use push_snode.Base.Steps.{Step, continue, return, lift, ◌>>=◌, ◌>>◌}
use push_snode.Ext.{Ext}
use push_snode.Proto.{Transaction, TransactionObj, Block}
use push_snode.Db.{Db}
use push_snode.Utilz.Coll.{intersect_set}
use push_snode.BlockUtil.Shards.{calculate_affected_shard, not_null}
use push_snode.StorageContractState.{StorageContractState, get_node_shards}
use push_snode.DbHelper.{hash_tx_as_hex, put_value_in_storage_table}

-- `calculateRecipients` of a transaction
unfoldable pub calculate_recipients : Transaction → List String
calculate_recipients tx = tx.recipients ++ tx.sender ∷ []

-- `shardsToProcess.has(targetShard)`, where the shard may be null
abbrev has_shard : List ℕ → Option ℕ → Bool
has_shard shards none = false
has_shard shards (some shard) = has shards shard

-- An empty set does not restrict the shards.
unfoldable pub is_skipped : List ℕ → Option ℕ → Bool
is_skipped shards_to_process target_shard =
    not (nat_beq (length shards_to_process) 0) && not (has_shard shards_to_process target_shard)

module _ (ext : Ext) where
  unfoldable pub put_payload_to_inbox :
      String → Option ℕ → String → ℕ → Transaction → Step Db (Unit {0})
  put_payload_to_inbox ns_name ns_shard_id ns_id ts payload =
      let hash = hash_tx_as_hex ext (ext.serialize_tx payload) in
      put_value_in_storage_table ext ns_name ns_shard_id ns_id ts hash payload

  -- the body of the loop over the wallets
  pub unpack_wallet : ℕ → List ℕ → ℕ → Transaction → String → Step Db (Unit {0})
  unfolding put_payload_to_inbox
  unpack_wallet shard_count shards_to_process ts tx target_addr =
      lift (calculate_affected_shard ext target_addr shard_count) >>= λ target_shard.
      if is_skipped shards_to_process target_shard
      then return tt
      else put_payload_to_inbox tx.category target_shard target_addr ts tx

  -- `for (targetAddr of targetWallets)`
  pub unpack_wallets : ℕ → List ℕ → ℕ → Transaction → List String → Step Db (Unit {0})
  unfolding unpack_wallet
  unpack_wallets shard_count shards_to_process ts tx [] = return tt
  unpack_wallets shard_count shards_to_process ts tx (target_addr ∷ target_wallets) =
      unpack_wallet shard_count shards_to_process ts tx target_addr
      >> unpack_wallets shard_count shards_to_process ts tx target_wallets

  -- the body of the loop over the transactions
  pub unpack_tx : ℕ → List ℕ → ℕ → Option Transaction → Step Db (Unit {0})
  unfolding unpack_wallets
  unpack_tx shard_count shards_to_process ts none = lift (throw undefined_property)
  unpack_tx shard_count shards_to_process ts (some tx) =
      unpack_wallets shard_count shards_to_process ts tx (calculate_recipients tx)

  pub unpack_txs : ℕ → List ℕ → ℕ → List TransactionObj → Step Db (Unit {0})
  unfolding unpack_tx
  unpack_txs shard_count shards_to_process ts [] = return tt
  unpack_txs shard_count shards_to_process ts (feed_item ∷ txobj) =
      unpack_tx shard_count shards_to_process ts feed_item.tx
      >> unpack_txs shard_count shards_to_process ts txobj

  unfoldable pub unpack_block_to_inboxes :
      StorageContractState → Block → List ℕ → Step Db (Unit {0})
  unfolding unpack_txs
  unpack_block_to_inboxes st mb shard_set = lift (get_node_shards st) >>= λ node_shards.
      unpack_txs st.shard_count (intersect_set shard_set node_shards) mb.ts mb.txobj
