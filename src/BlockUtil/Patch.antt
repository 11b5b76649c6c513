-- ===== src/BlockUtil/Patch.antt =====
-- services/messaging-common/blockUtil.ts: the answer of an attestor (a patch), which the validator
-- puts into the block, and the address that signed it.
pub mod Attestations
pub mod Laws
mod Tests
use push_snode.Base.{String, List, [], ◌∷◌, ◌++◌, Result, ok, throw, ◌>>=◌, undefined_property}
use push_snode.Proto.{TxAttestorData, TransactionObj, Block, AttestBlockResult}
use push_snode.Ext.{Ext}
use push_snode.BlockUtil.Shards.{not_null}
use push_snode.BlockUtil.Signers.{set_attestordata}

-- `txObj.getAttestordataList().push(data)`
abbrev pub push_attestordata : TransactionObj → TxAttestorData → TransactionObj
push_attestordata o a = record o { attestordata = o.attestordata ++ (a ∷ []) }

-- An attestation that the patch does not have is `undefined`; a list that holds it cannot be
-- serialized, and the error stands here for the later one.
unfoldable pub push_attestations :
    List TransactionObj → List TxAttestorData → Result (List TransactionObj)
push_attestations [] datas = ok []
push_attestations (o ∷ objs) [] = throw undefined_property
push_attestations (o ∷ objs) (a ∷ datas) = do
  rest ← push_attestations objs datas
  ok (push_attestordata o a ∷ rest)

-- the loop of `recoverPatchAddress`, with the same error
unfoldable pub set_attestations :
    List TransactionObj → List TxAttestorData → Result (List TransactionObj)
set_attestations [] datas = ok []
set_attestations (o ∷ objs) [] = throw undefined_property
set_attestations (o ∷ objs) (a ∷ datas) = do
  rest ← set_attestations objs datas
  ok (set_attestordata o a ∷ rest)

unfoldable pub append_patch_as_validator : Block → AttestBlockResult → Result Block
append_patch_as_validator block ar = do
  txobj ← push_attestations block.txobj ar.attestordata
  signer ← not_null ar.signer undefined_property
  ok (record block { txobj = txobj; signers = block.signers ++ (signer ∷ []) })

unfoldable pub recover_patch_address : Ext → Block → AttestBlockResult → Result String
recover_patch_address ext block ar = do
  tmp ← ext.deserialize_block (ext.serialize_block block)
  txobj ← set_attestations tmp.txobj ar.attestordata
  signer ← not_null ar.signer undefined_property
  ext.recover_address (ext.serialize_block (record tmp { txobj = txobj })) signer.sig
