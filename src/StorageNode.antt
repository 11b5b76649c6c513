-- ===== src/StorageNode.antt =====
-- services/messaging/storageNode.ts: the node accepts a block that its validators signed, stores it
-- once, and unpacks it into the inboxes.
pub mod Checks
pub mod Laws
pub mod History
mod Accept
pub mod Reshard
pub mod Delivery
mod Tests
use push_snode.Base.{
  ℕ, String, Bool, true, false, not, List, [], ◌∷◌, Option, none, some, Result, ok, throw,
  block_validation_failed, if◌then◌else◌, ◌==◌, nat_eq, string_eq,
}
use push_snode.Base.{◌>>=◌ as bind}
use push_snode.Base.JsSet.{of_list}
use push_snode.Base.JsMap.{keys}
use push_snode.Base.Steps.{Step, continue, return, lift, ◌>>=◌}
use push_snode.QueueTypes.{QItem}
use push_snode.Ext.{Ext}
use push_snode.Proto.{Block}
use push_snode.Db.{Db}
use push_snode.Utilz.StrUtil
use push_snode.Utilz.Coll.{substract_set, intersect_set}
use push_snode.Utilz.BitUtil.Hex.{base16_to_bytes, bytes_to_base16}
use push_snode.BlockUtil.CheckR.{CheckR, pass, fail_with_text}
use push_snode.BlockUtil.Signers.{check_block_as_snode}
use push_snode.BlockUtil.Shards.{calculate_affected_shards}
use push_snode.StorageContractState.{StorageContractState}
use push_snode.ValidatorContractState.{ValidatorCtClient}
use push_snode.BlockStorage.{save_block_with_shard_data}
use push_snode.IndexStorage.{unpack_block_to_inboxes}

-- The services of the node that a block is checked against.
pub record Node : Type 0 where
  pub val_contract_state : ValidatorCtClient
  pub storage_contract_state : StorageContractState

-- `throw new BlockError(...)` on a failed check
abbrev pub succeeded : CheckR → Result (Unit {0})
succeeded pass = ok tt
succeeded (fail_with_text err) = throw block_validation_failed

-- A value or the hash of the raw block, when it is missing or empty.
abbrev hash_or : Option String → String → String
hash_or none computed = computed
hash_or (some hash) computed = if StrUtil.is_empty hash then computed else hash

module _ (ext : Ext) where
  unfoldable pub hash_block_as_hex : List ℕ → String
  hash_block_as_hex block_raw = bytes_to_base16 (ext.sha256 block_raw)

  module _ (node : Node) where
    -- What is checked before the database is asked: the shards of a block that passes.
    unfoldable pub checked_shards : Block → Result (List ℕ)
    checked_shards parsed_block =
        bind
          (check_block_as_snode ext parsed_block (of_list (keys node.val_contract_state.vnodes))
            node.val_contract_state.val_per_block)
          (λ check_result. bind (succeeded check_result) (λ _.
            calculate_affected_shards ext parsed_block node.storage_contract_state.shard_count))

    -- The statements after the block is saved. True, if the block is new.
    unpack_new_block : Block → List ℕ → Bool → Step Db Bool
    unpack_new_block parsed_block shard_set false = return false
    unpack_new_block parsed_block shard_set true =
        unpack_block_to_inboxes ext node.storage_contract_state parsed_block shard_set >>= λ _.
        return true

    unfoldable pub handle_block : Block → List ℕ → Option String → Step Db Bool
    unfolding unpack_new_block
    handle_block parsed_block raw_block hash = lift (checked_shards parsed_block) >>= λ shard_set.
        λ db.
          let (db', is_new) =
            save_block_with_shard_data ext parsed_block (hash_or hash (hash_block_as_hex raw_block))
              shard_set (bytes_to_base16 raw_block) db in
          unpack_new_block parsed_block shard_set is_new db'

    -- `calculatedHash !== item.object_hash`
    abbrev pub is_hash : Option String → String → Bool
    is_hash none calculated_hash = false
    is_hash (some hash) calculated_hash = hash == calculated_hash

    -- `none` is the `undefined` of a body that ends without a `return`. An id is never empty.
    unfoldable pub accept : QItem → Step Db (Option Bool)
    accept item = lift (base16_to_bytes item.object) >>= λ mb.
        if not (is_hash item.object_hash (hash_block_as_hex mb))
        then return (some false)
        else (lift (ext.deserialize_block mb) >>= λ parsed_block.
            handle_block parsed_block mb item.object_hash >>= λ _. return none)

-- `shardsToAdd`, `shardsToDelete`, `commonShards`
pub record ShardStatus : Type 0 where
  pub shards_to_add : List ℕ
  pub shards_to_delete : List ℕ
  pub common_shards : List ℕ

unfoldable pub get_shard_status : List ℕ → List ℕ → ShardStatus
get_shard_status old_shards new_shards = record {
  shards_to_add = substract_set new_shards old_shards;
  shards_to_delete = substract_set old_shards new_shards;
  common_shards = intersect_set old_shards new_shards;
}
