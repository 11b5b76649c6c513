-- ===== src/BlockUtil/Shards.antt =====
-- The shards that an address, a transaction and a block affect, and the addresses in them.
pub mod Laws
use push_snode.Base.{
  ℕ, zero, suc, ◌%◌, String, Bool, true, false, ◌&&◌, not, List, [], ◌∷◌, ◌++◌, Option, none, some,
  Error, Result, ok, throw, ◌>>=◌, ◌>>◌, guard, invalid_caip, null_check_failed, assertion_failed,
  undefined_property, if◌then◌else◌, ltb, leb, ◌==◌, nat_eq, string_eq, get_elem?,
}
use push_snode.Base.JsSet.{add, of_list}
use push_snode.Proto.{Transaction, TransactionObj, Block}
use push_snode.Ext.{Ext}
use push_snode.Utilz.StrUtil
use push_snode.Utilz.ChainUtil.{caip, failed, parse_caip_address, no_prefix}

-- `Check.notNull(value)` of a value that may be undefined
abbrev pub not_null {ℓ} : {A : Type ℓ} → Option A → Error → Result A
not_null none e = throw e
not_null (some a) e = ok a

-- `shards.add(shardId)`, unless it is null
abbrev pub add_found : List ℕ → Option ℕ → List ℕ
add_found shards none = shards
add_found shards (some id) = add shards id

module _ (ext : Ext) where
  -- The shard of an address, by the first byte of the hash.
  shard_of_hash : List ℕ → ℕ → Result (Option ℕ)
  shard_of_hash sha shard_count = do
    shard_id ← not_null (get_elem? sha 0) null_check_failed
    guard (leb 0 shard_id && leb shard_id 255) assertion_failed
    guard (leb 1 shard_count) assertion_failed
    ok (some (shard_id % shard_count))

  unfoldable pub calculate_affected_shard : String → ℕ → Result (Option ℕ)
  unfolding shard_of_hash
  calculate_affected_shard wallet_in_caip shard_count =
      if StrUtil.is_empty wallet_in_caip
      then ok none
      else elim (parse_caip_address wallet_in_caip) [
        | failed err ↦ throw invalid_caip
        | caip c ↦
            if not (not (StrUtil.is_empty c.addr) && ltb 4 (StrUtil.length c.addr))
            then ok none
            else shard_of_hash (ext.sha256 (ext.string_to_bytes_utf (no_prefix c.addr))) shard_count
      ]

  -- `for (i = first; i < first + count; i++) shards.add(i)`
  pub add_range : ℕ → ℕ → List ℕ → List ℕ
  add_range zero first shards = shards
  add_range (suc count) first shards = add_range count (suc first) (add shards first)

  -- the loop over the sender and the recipients
  pub add_wallets : ℕ → List String → List ℕ → Result (List ℕ)
  add_wallets shard_count [] shards = ok shards
  add_wallets shard_count (wallet ∷ wallets) shards = do
    shard_id ← calculate_affected_shard wallet shard_count
    add_wallets shard_count wallets (add_found shards shard_id)

  unfoldable pub calculate_affected_shards_tx : Transaction → ℕ → List ℕ → Result (List ℕ)
  unfolding add_range add_wallets
  calculate_affected_shards_tx tx shard_count shards =
      if tx.category == "INIT_DID"
      then ok (add_range shard_count 0 shards)
      else add_wallets shard_count (tx.sender ∷ tx.recipients) shards

  -- the loop over the transactions; a method of an unset `tx` throws
  pub add_txs : ℕ → List TransactionObj → List ℕ → Result (List ℕ)
  add_txs shard_count [] shards = ok shards
  add_txs shard_count (tx_obj ∷ tx_objs) shards = do
    tx ← not_null tx_obj.tx undefined_property
    shards' ← calculate_affected_shards_tx tx shard_count shards
    add_txs shard_count tx_objs shards'

  unfoldable pub calculate_affected_shards : Block → ℕ → Result (List ℕ)
  unfolding add_txs
  calculate_affected_shards block shard_count = add_txs shard_count block.txobj []

unfoldable pub calculate_addresses_in_transaction : Transaction → List String
unfolding of_list
calculate_addresses_in_transaction trx = of_list (trx.recipients ++ trx.sender ∷ [])

collect_addresses : List TransactionObj → List String → Result (List String)
collect_addresses [] arr = ok arr
collect_addresses (tx_obj ∷ tx_objs) arr = do
  tx ← not_null tx_obj.tx undefined_property
  collect_addresses tx_objs (arr ++ (tx.recipients ++ tx.sender ∷ []))

unfoldable pub calculate_addresses_in_block : Block → Result (List String)
unfolding collect_addresses of_list
calculate_addresses_in_block block = do arr ← collect_addresses block.txobj []; ok (of_list arr)
