-- ===== src/StorageNode/History.antt =====
-- What holds after any sequence of blocks.
use push_snode.Base.{
  ℕ, String, true, false, List, Option, ◌≡◌, ◌∙◌, ap, sym, subst, arith, inl, inr, Bool-cases,
  ==_iff, nat_eq, string_eq, pair_eq,
}
use push_snode.Base.JsSet.{has, has-add}
use push_snode.Ext.{Ext}
use push_snode.Proto.{Block}
use push_snode.Db.{Db}
use push_snode.BlockStorage.{block_hashes}
use push_snode.StorageNode.{Node, handle_block}
use push_snode.StorageNode.Checks.{PassesCheck}
use push_snode.StorageNode.Laws.{stored_hash, handle_block-stores}

-- The databases after any sequence of blocks, of which each may be rejected or throw. The state of
-- the contracts may change between two blocks.
pub data History (ext : Ext) (start : Db) : Db → Type 0 where
  beginning : History ext start start
  handled :
      {db : Db}
      → History ext start db
      → (node : Node) (block : Block) (raw : List ℕ) (hash : Option String)
      → History ext start (handle_block ext node block raw hash db).0

-- The calls of a sequence.
pub data IsHandledIn {ext : Ext} {start : Db}
    : (db : Db) → History ext start db → Node → Block → List ℕ → Option String → Type 0 where
  last :
      {db : Db} {h : History ext start db} {node : Node} {block : Block} {raw : List ℕ}
      {given : Option String}
      → IsHandledIn
          (handle_block ext node block raw given db).0
          (handled h node block raw given)
          node
          block
          raw
          given
  earlier :
      {db : Db} {h : History ext start db} {node node' : Node} {block block' : Block}
      {raw raw' : List ℕ} {given given' : Option String}
      → IsHandledIn db h node block raw given
      → IsHandledIn
          (handle_block ext node' block' raw' given' db).0
          (handled h node' block' raw' given')
          node
          block
          raw
          given

-- A block of the sequence that was stored under the hash, and passed the check of the node that stored it.
abbrev pub WasChecked : {ext : Ext} {start db : Db} → History ext start db → String → Type 0
WasChecked {ext = ext} {db = db} h hash =
    (node : Node) × (block : Block) × (raw : List ℕ) × (given : Option String) × IsHandledIn db h
      node block raw given
    × (stored_hash ext node block raw given ≡ hash)
    × PassesCheck ext node block

-- A hash that is stored after any sequence of blocks that are handled, and was not stored before them, is
-- the one that a block of the sequence is stored under, given with it or computed from its bytes, and
-- this block passed the check of a storage node against the validators that the contract had then.
pub History-WasChecked :
    (ext : Ext) (start db : Db) (hash : String) (h : History ext start db)
    → has (block_hashes start.blocks) hash ≡ false
    → has (block_hashes db.blocks) hash ≡ true
    → WasChecked h hash
History-WasChecked ext start db k beginning new stored = cc
History-WasChecked ext start _ k (handled {db = before} h node block raw given) new stored =
    elim (Bool-cases (has (block_hashes before.blocks) k)) [
      | inl old ↦
          let (n, b, r, g, is_in, under, passed) =
            History-WasChecked ext start before k h new old in
          (n, b, r, g, earlier is_in, under, passed)
      | inr fresh ↦ elim (handle_block-stores ext node block raw given before) [
        | inl e ↦ absurd (ground (arith, fresh, sym (ap (λ hs. has hs k) e) ∙ stored))
        | inr (e, passed) ↦
            let key : String = stored_hash ext node block raw given in
            (
              node,
              block,
              raw,
              given,
              last,
              ground (
                arith,
                fresh,
                has-add (block_hashes before.blocks) key k,
                sym (ap (λ hs. has hs k) e) ∙ stored,
                ==_iff key k,
              ),
              passed,
            )
      ]
    ]

-- A hash that is stored stays stored over any sequence of blocks that are handled.
pub History-has :
    (ext : Ext) (start db : Db) (hash : String)
    → History ext start db
    → has (block_hashes start.blocks) hash ≡ true
    → has (block_hashes db.blocks) hash ≡ true
History-has ext start db k beginning p = p
History-has ext start _ k (handled {db = before} h node block raw hash) p =
    let q : has (block_hashes before.blocks) k ≡ true = History-has ext start before k h p in
    elim (handle_block-stores ext node block raw hash before) [
      | inl e ↦ subst (λ hs. has hs k ≡ true) (sym e) q
      | inr (e, passed) ↦
          subst (λ hs. has hs k ≡ true) (sym e)
            (ground
              (arith, has-add (block_hashes before.blocks) (stored_hash ext node block raw hash) k))
    ]
