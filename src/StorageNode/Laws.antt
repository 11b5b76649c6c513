-- ===== src/StorageNode/Laws.antt =====
-- What a storage node keeps and answers when it is given blocks.
use push_snode.Base.{
  ℕ, String, Bool, true, false, List, Option, Result, ok, throw, ◌≡◌, ◌⊎◌, refl, ap, sym, ◌∙◌,
  arith, inl, inr, ==_self, nat_eq, string_eq, pair_eq,
}
use push_snode.Base.JsSet.{has, add, has-add, add_all}
use push_snode.BlockUtil.Shards.{calculate_affected_shards}
use push_snode.Base.Steps.{continue, >>=-eq-ok, Keeps, >>=-Keeps}
use push_snode.Ext.{Ext}
use push_snode.Proto.{Block}
use push_snode.Db.{Db, BlockRow}
use push_snode.Utilz.Coll.{intersect_set}
use push_snode.Utilz.BitUtil.Hex.{bytes_to_base16}
use push_snode.StorageContractState.{get_node_shards}
use push_snode.BlockStorage.{block_hashes, save_block_with_shard_data}
use push_snode.BlockStorage.Laws.{save_block_with_shard_data_lem}
use push_snode.DbHelper.{InboxKey, inbox_keys}
use push_snode.DbHelper.Laws.{put_value_in_storage_table-blocks}
use push_snode.IndexStorage.{unpack_txs, unpack_block_to_inboxes}
use push_snode.IndexStorage.Laws.{
  block_keys, unpack_block_to_inboxes-keys, unpack_block_to_inboxes-Keeps,
}
use push_snode.StorageNode.Checks.{PassesCheck, checked_shards-ok}
use push_snode.StorageNode.{
  Node, hash_or, hash_block_as_hex, checked_shards, unpack_new_block, handle_block,
}

module _ (ext : Ext) (node : Node) (block : Block) (raw : List ℕ) (hash : Option String) where
  -- the hash that the block is stored under
  abbrev pub stored_hash : String
  stored_hash = hash_or hash (hash_block_as_hex ext raw)

  abbrev save : List ℕ → Db → Db × Bool
  save shards db = save_block_with_shard_data ext block stored_hash shards (bytes_to_base16 raw) db

  handle_block-checked :
      (shards : List ℕ) (db : Db)
      → checked_shards ext node block ≡ ok shards
      → handle_block ext node block raw hash db
        ≡ unpack_new_block ext node block shards (save shards db).1 (save shards db).0
  unfolding handle_block
  handle_block-checked shards db e = rw e refl

  unpack_new_block-blocks :
      (shards : List ℕ) (is_new : Bool) (blocks : List BlockRow)
      → Keeps (λ db. db.blocks ≡ blocks) (unpack_new_block ext node block shards is_new)
  unfolding unpack_new_block
  unpack_new_block-blocks shards false blocks = λ db p. p
  unpack_new_block-blocks shards true blocks =
      >>=-Keeps (λ db. db.blocks ≡ blocks)
        (unpack_block_to_inboxes ext node.storage_contract_state block shards) _
        (unpack_block_to_inboxes-Keeps ext (λ db. db.blocks ≡ blocks)
          (put_value_in_storage_table-blocks ext blocks) node.storage_contract_state block shards)
        (λ _ db p. p)

  -- Of a block that passes the checks, the hash is stored, also when unpacking the block throws.
  pub handle_block-hashes :
      (shards : List ℕ) (db : Db)
      → checked_shards ext node block ≡ ok shards
      → block_hashes (handle_block ext node block raw hash db).0.blocks
        ≡ add (block_hashes db.blocks) stored_hash
  handle_block-hashes shards db e =
      let s : Db × Bool = save shards db in
      ap (λ r. block_hashes r.0.blocks) (handle_block-checked shards db e)
      ∙ ap block_hashes (unpack_new_block-blocks shards s.1 s.0.blocks s.0 refl)
      ∙ (save_block_with_shard_data_lem ext block stored_hash shards (bytes_to_base16 raw) db).0

  handle_block-known :
      (shards : List ℕ) (db : Db)
      → checked_shards ext node block ≡ ok shards
      → has (block_hashes db.blocks) stored_hash ≡ true
      → handle_block ext node block raw hash db ≡ (db, ok false)
  unfolding save_block_with_shard_data unpack_new_block
  handle_block-known shards db e known = handle_block-checked shards db e ∙ rw known refl

  -- A block that was handled once, and passed the checks then, is a duplicate when it comes again:
  -- the second call answers false and writes nothing, whether or not the first could unpack it.
  pub handle_block-again :
      (shards : List ℕ) (db : Db)
      → checked_shards ext node block ≡ ok shards
      → let first : Db = (handle_block ext node block raw hash db).0 in
        handle_block ext node block raw hash first ≡ (first, ok false)
  handle_block-again shards db e =
      let first : Db = (handle_block ext node block raw hash db).0 in
      handle_block-known shards first e (
        ap (λ hs. has hs stored_hash) (handle_block-hashes shards db e)
        ∙ has-add (block_hashes db.blocks) stored_hash stored_hash
        ∙ ground (arith, ==_self stored_hash))

  -- What the last statements of a call that answers true have done.
  unpack_new_block-true :
      (shards : List ℕ) (is_new : Bool) (db db' : Db)
      → unpack_new_block ext node block shards is_new db ≡ (db', ok true)
      → (is_new ≡ true)
        × (unpack_block_to_inboxes ext node.storage_contract_state block shards db ≡ (db', ok tt))
  unfolding unpack_new_block
  unpack_new_block-true shards false db db' h = cc
  unpack_new_block-true shards true db db' h =
      let (t, u, q, k) =
        >>=-eq-ok (unpack_block_to_inboxes ext node.storage_contract_state block shards) _ h in
      (refl, q ∙ ap (λ z. (z, ok tt)) (ap (λ z. z.0) k))

  unpacked_with_shards :
      (shards : List ℕ) (db db' : Db)
      → unpack_block_to_inboxes ext node.storage_contract_state block shards db ≡ (db', ok tt)
      → (node_shards : List ℕ) × (get_node_shards node.storage_contract_state ≡ ok node_shards)
  unfolding unpack_block_to_inboxes
  unpacked_with_shards shards db db' h = split (get_node_shards node.storage_contract_state) refl h
    where
      split :
          (r : Result (List ℕ))
          → get_node_shards node.storage_contract_state ≡ r
          → continue
              (db, r)
              (λ node_shards.
                unpack_txs ext node.storage_contract_state.shard_count
                  (intersect_set shards node_shards)
                  block.ts
                  block.txobj)
            ≡ (db', ok tt)
          → (node_shards : List ℕ) × (get_node_shards node.storage_contract_state ≡ ok node_shards)
      split (ok ns) q k = (ns, q)
      split (throw e) q k = cc

  -- The checks of a call that does not throw have passed.
  pub handle_block-checks :
      (db db' : Db) (answer : Bool)
      → handle_block ext node block raw hash db ≡ (db', ok answer)
      → (shards : List ℕ) × (checked_shards ext node block ≡ ok shards)
  unfolding handle_block
  handle_block-checks db db' answer h = split (checked_shards ext node block) refl h
    where
      split :
          (r : Result (List ℕ))
          → checked_shards ext node block ≡ r
          → continue
              (db, r)
              (λ shards t.
                unpack_new_block ext node block shards (save shards t).1 (save shards t).0)
            ≡ (db', ok answer)
          → (shards : List ℕ) × (checked_shards ext node block ≡ ok shards)
      split (ok shards) q k = (shards, q)
      split (throw e) q k = cc

  -- A call that answers true was given a block that passes the check of a storage node, against the
  -- validators of the contract, and whose hash was not stored. It has stored the hash, and added to the inboxes the keys of the block and no others.
  pub handle_block-true :
      (db db' : Db)
      → handle_block ext node block raw hash db ≡ (db', ok true)
      → (shards node_shards : List ℕ) × PassesCheck ext node block
        × (calculate_affected_shards ext block node.storage_contract_state.shard_count ≡ ok shards)
        × (checked_shards ext node block ≡ ok shards)
        × (get_node_shards node.storage_contract_state ≡ ok node_shards)
        × (has (block_hashes db.blocks) stored_hash ≡ false)
        × (block_hashes db'.blocks ≡ add (block_hashes db.blocks) stored_hash)
        × (inbox_keys db'.storage_node
            ≡ add_all (inbox_keys db.storage_node) (
                block_keys ext node.storage_contract_state.shard_count
                  (intersect_set shards node_shards)
                  block.txobj))
  handle_block-true db db' h =
      let (shards, checked) = handle_block-checks db db' true h in
      let (passed, affected) = checked_shards-ok ext node block shards checked in
      let s : Db × Bool = save shards db in
      let (is_new, unpacked) =
        unpack_new_block-true shards s.1 s.0 db'
          (sym (handle_block-checked shards db checked) ∙ h) in
      let (node_shards, served) = unpacked_with_shards shards s.0 db' unpacked in
      let added : List InboxKey =
        block_keys ext node.storage_contract_state.shard_count (intersect_set shards node_shards)
          block.txobj in
      let (ks, bs) =
        unpack_block_to_inboxes-keys ext node.storage_contract_state block shards node_shards s.0
          db' served unpacked in
      let (hs, answer, boxes) =
        save_block_with_shard_data_lem ext block stored_hash shards (bytes_to_base16 raw) db in
      (
        shards,
        node_shards,
        passed,
        affected,
        checked,
        served,
        ground (arith, answer, is_new),
        ap block_hashes bs ∙ hs,
        ks ∙ ap (λ rows. add_all (inbox_keys rows) added) boxes,
      )

  -- The stored hashes are as before, or the block passed and its hash is stored.
  pub handle_block-stores :
      (db : Db)
      → (block_hashes (handle_block ext node block raw hash db).0.blocks ≡ block_hashes db.blocks)
        ⊎ (block_hashes (handle_block ext node block raw hash db).0.blocks
            ≡ add (block_hashes db.blocks) stored_hash)
          × PassesCheck ext node block
  unfolding handle_block
  handle_block-stores db = split (checked_shards ext node block) refl
    where
      split :
          (r : Result (List ℕ))
          → checked_shards ext node block ≡ r
          → (block_hashes (handle_block ext node block raw hash db).0.blocks
              ≡ block_hashes db.blocks)
            ⊎ (block_hashes (handle_block ext node block raw hash db).0.blocks
                ≡ add (block_hashes db.blocks) stored_hash)
              × PassesCheck ext node block
      split (ok shards) q =
          inr ((handle_block-hashes shards db q, (checked_shards-ok ext node block shards q).0))
      split (throw e) q = inl (rw (q, handle_block) refl)
