-- ===== src/StorageNode/Checks.antt =====
-- What a storage node checks before a block is stored.
use push_snode.Base.{ℕ, List, ok, ◌≡◌, nat_eq, string_eq, pair_eq}
use push_snode.Base.JsSet.{of_list}
use push_snode.Base.{>>=-eq-ok as parts_of_ok, ◌>>=◌ as bind}
use push_snode.Base.JsMap.{keys}
use push_snode.BlockUtil.CheckR.{CheckR, pass, fail_with_text}
use push_snode.BlockUtil.Signers.{check_block_as_snode}
use push_snode.BlockUtil.Shards.{calculate_affected_shards}
use push_snode.Ext.{Ext}
use push_snode.Proto.{Block}
use push_snode.StorageNode.{Node, succeeded, checked_shards}

-- The check of a storage node passes, against the validators and the number of signatures that the node
-- has from the contract.
abbrev pub PassesCheck : Ext → Node → Block → Type 0
PassesCheck ext node block =
    check_block_as_snode ext block (of_list (keys node.val_contract_state.vnodes))
      node.val_contract_state.val_per_block
    ≡ ok pass

-- What is behind the shards of a block that is not refused.
pub checked_shards-ok :
    (ext : Ext) (node : Node) (block : Block) (shards : List ℕ)
    → checked_shards ext node block ≡ ok shards
    → PassesCheck ext node block
      × (calculate_affected_shards ext block node.storage_contract_state.shard_count ≡ ok shards)
unfolding checked_shards
checked_shards-ok ext node block shards h =
    let (r, q, k) =
      parts_of_ok
        (check_block_as_snode ext block (of_list (keys node.val_contract_state.vnodes))
          node.val_contract_state.val_per_block)
        _ h in
    split r q k
  where
    split :
        (r : CheckR)
        → check_block_as_snode ext block
            (of_list (keys node.val_contract_state.vnodes))
            node.val_contract_state.val_per_block
          ≡ ok r
        → bind
            (succeeded r)
            (λ _. calculate_affected_shards ext block node.storage_contract_state.shard_count)
          ≡ ok shards
        → PassesCheck ext node block
          × (calculate_affected_shards ext block node.storage_contract_state.shard_count
              ≡ ok shards)
    split pass q k = (q, k)
    split (fail_with_text err) q k = cc
