-- ===== src/BlockUtil/Signers.antt =====
-- Who signed a block. Signature 0 is the validator's, over the block without signatures and
-- attestations; signature i is an attestor's, over the block with the validator's signature and the
-- i-th attestation of each transaction.
pub mod Laws
use push_snode.Base.{
  string_eq, ℕ, zero, suc, ◌-◌, String, Bool, true, false, List, [], ◌∷◌, ◌++◌, Option, none, some,
  Result, ok, throw, ◌>>=◌, ◌>>◌, guard, signer_out_of_index, validator_signature_is_required,
  undefined_property, if◌then◌else◌, ltb, nat_beq, not, length, get_elem?, map,
}
use push_snode.Base.JsSet.{has}
use push_snode.Proto.{TxAttestorData, TransactionObj, Signer, Block, AttestBlockResult}
use push_snode.Ext.{Ext}
use push_snode.BlockUtil.Shards.{not_null}
use push_snode.BlockUtil.CheckR.{
  CheckR, pass, fail_with_text, unregistered_validator, wrong_signature_count, fail_if,
}

-- `txObj.clearAttestordataList()`
abbrev pub clear_attestordata : TransactionObj → TransactionObj
clear_attestordata o = record o { attestordata = [] }

-- `txObj.setAttestordataList([data])`
abbrev pub set_attestordata : TransactionObj → TxAttestorData → TransactionObj
set_attestordata o a = record o { attestordata = a ∷ [] }

-- The attestation at `index` of every transaction, set on the copies `tmp`. A list that holds
-- `undefined` cannot be serialized.
unfoldable pub only_one_attestation :
    ℕ → List TransactionObj → List TransactionObj → Result (List TransactionObj)
only_one_attestation index [] objs = ok []
only_one_attestation index (t ∷ tmp) [] = throw undefined_property
only_one_attestation index (t ∷ tmp) (o ∷ objs) = do
  a ← not_null (get_elem? o.attestordata index) undefined_property
  rest ← only_one_attestation index tmp objs
  ok (set_attestordata t a ∷ rest)

-- The block that the validator signs.
unfoldable pub validator_view : Block → Block
validator_view tmp = record tmp { signers = []; txobj = map clear_attestordata tmp.txobj }

module _ (ext : Ext) where
  -- the branch of an attestor
  recover_attestor : Block → Block → Signer → ℕ → Result String
  unfolding only_one_attestation
  recover_attestor block tmp validator signer_index = do
    txobj ← only_one_attestation (signer_index - 1) tmp.txobj block.txobj
    signer ← not_null (get_elem? block.signers signer_index) undefined_property
    let tmp_block : Block = record tmp { signers = validator ∷ []; txobj = txobj }
    ext.recover_address (ext.serialize_block tmp_block) signer.sig

  unfoldable pub recover_signer_address : Block → ℕ → Result String
  unfolding recover_attestor validator_view
  recover_signer_address block signer_index = do
    guard (ltb signer_index (length block.signers)) signer_out_of_index
    validator ← not_null (get_elem? block.signers 0) validator_signature_is_required
    tmp ← ext.deserialize_block (ext.serialize_block block)
    if nat_beq signer_index 0
        then ext.recover_address (ext.serialize_block (validator_view tmp)) validator.sig
        else recover_attestor block tmp validator signer_index

  -- `for (attIndex = first; attIndex < first + count; attIndex++)`: each signer is in the set.
  unfoldable pub check_signers : List String → Block → ℕ → ℕ → Result CheckR
  check_signers validators block zero first = ok pass
  check_signers validators block (suc count) first = do
    node_id ← recover_signer_address block first
    fail_if (not (has validators node_id)) (unregistered_validator node_id)
        (check_signers validators block count (suc first))

  -- The copy `tmpBlock` of the source is made, and then not used.
  unfoldable pub check_block_as_snode : Block → List String → ℕ → Result CheckR
  unfolding check_signers
  check_block_as_snode block validators val_per_block =
      fail_if (not (nat_beq (length block.signers) val_per_block))
        (wrong_signature_count (length block.signers) val_per_block)
        (ext.deserialize_block (ext.serialize_block block) >>= λ _.
          check_signers validators block (length block.signers) 0)
