-- ===== src/PushPutBlock.antt =====
-- rpc/push_putBlock.ts: a validator hands over blocks, each as hexadecimal text. `validate` accepts
-- every request, and the node is the one of the container.
pub mod Laws
mod Tests
use push_snode.Base.{
  String, Bool, true, false, List, [], ◌∷◌, Option, none, Result, ok, throw, Error, if◌then◌else◌,
}
use push_snode.Base.Steps.{Step, lift, ◌>>=◌}
use push_snode.Ext.{Ext}
use push_snode.Db.{Db}
use push_snode.Utilz.StrUtil
use push_snode.Utilz.BitUtil.Hex.{hex0x_remove, base16_to_bytes}
use push_snode.StorageNode.{Node, handle_block}

-- The reason of a rejection: its two constants, or the message of an error.
pub data RejectReason : Type 0 where
  empty_block_data duplicate : RejectReason
  message : Error → RejectReason

pub data BlockResult : Type 0 where
  accepted : BlockResult
  rejected : RejectReason → BlockResult

-- What is answered after the statements of the `try`.
abbrev pub block_result : Result Bool → BlockResult
block_result (ok true) = accepted
block_result (ok false) = rejected duplicate
block_result (throw e) = rejected (message e)

module _ (ext : Ext) (node : Node) where
  -- the statements of the `try`
  unfoldable pub store_block : String → Step Db Bool
  store_block block_base16 =
      lift (base16_to_bytes (ext.to_lower_case (hex0x_remove ext.to_lower_case block_base16)))
      >>= λ block_bytes. lift (ext.deserialize_block block_bytes) >>= λ block.
          handle_block ext node block block_bytes none

  unfoldable pub handle_one_block : String → Db → Db × BlockResult
  unfolding store_block
  handle_one_block block_base16 db =
      if StrUtil.is_empty block_base16
      then (db, rejected empty_block_data)
      else (let (db', r) = store_block block_base16 db in (db', block_result r))

  unfoldable pub execute : List String → Db → Db × List BlockResult
  unfolding handle_one_block
  execute [] db = (db, [])
  execute (block ∷ blocks) db =
      let (db', br) = handle_one_block block db in
      let (db'', result) = execute blocks db' in (db'', br ∷ result)
