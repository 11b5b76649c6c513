-- ===== src/StorageNode/Accept.antt =====
-- What the consumer of a queue answers, and what it has stored then.
use push_snode.Base.{
  ℕ, String, Bool, true, false, List, Option, none, some, Result, ok, ◌≡◌, ◌≢◌, refl, ap, sym,
  subst, ◌∙◌, ◌⊎◌, Bool-cases, inl, inr, ==_iff, ok-injective, arith, nat_eq, string_eq, pair_eq,
}
use push_snode.Base.JsSet.{add}
use push_snode.Base.Steps.{lift, return, ◌>>=◌, >>=-eq-ok}
use push_snode.Ext.{Ext}
use push_snode.Proto.{Block}
use push_snode.QueueTypes.{QItem}
use push_snode.Db.{Db}
use push_snode.Utilz.StrUtil
use push_snode.Utilz.BitUtil.Hex.{base16_to_bytes}
use push_snode.BlockStorage.{block_hashes}
use push_snode.StorageNode.{Node, hash_or, hash_block_as_hex, is_hash, handle_block, accept}
use push_snode.StorageNode.Checks.{PassesCheck, checked_shards-ok}
use push_snode.StorageNode.Laws.{handle_block-hashes, handle_block-checks}

module _ (ext : Ext) (node : Node) where
  is_hash-false :
      (hash : Option String) (computed : String)
      → is_hash ext node hash computed ≡ false
      → hash ≢ some computed
  is_hash-false none computed h e = cc
  is_hash-false (some hash) computed h e =
      let same : hash ≡ computed = cc in ground (arith, h, ==_iff hash computed, same)

  is_hash-true :
      (hash : Option String) (computed : String)
      → is_hash ext node hash computed ≡ true
      → hash ≡ some computed
  is_hash-true none computed h = cc
  is_hash-true (some hash) computed h = ap some (ground (arith, h, ==_iff hash computed))

  -- A hash that is the computed one, or is empty, is stored as the computed one.
  hash_or-same :
      (hash : Option String) (computed : String)
      → hash ≡ some computed
      → hash_or hash computed ≡ computed
  hash_or-same none computed e = cc
  hash_or-same (some hash) computed e =
      let same : hash ≡ computed = cc in
      elim (Bool-cases (StrUtil.is_empty hash)) [ inl q ↦ rw q refl | inr q ↦ rw q same ]

  -- The item is refused: its hash is not the one of its bytes.
  abbrev pub IsRefused : QItem → List ℕ → Db → Db → Option Bool → Type 0
  IsRefused item bytes db db' answer =
      (answer ≡ some false) × (db' ≡ db) × (item.object_hash ≢ some (hash_block_as_hex ext bytes))

  -- The item is stored under its hash, which is the one of its bytes.
  abbrev pub IsStored : QItem → List ℕ → Db → Db → Option Bool → Type 0
  IsStored item bytes db db' answer =
      (block : Block) × (answer ≡ none)
      × (ext.deserialize_block bytes ≡ ok block)
      × PassesCheck ext node block
      × (item.object_hash ≡ some (hash_block_as_hex ext bytes))
      × (block_hashes db'.blocks ≡ add (block_hashes db.blocks) (hash_block_as_hex ext bytes))

  accept-IsStored :
      (item : QItem) (bytes : List ℕ) (block : Block) (db db' : Db) (is_new : Bool)
      → ext.deserialize_block bytes ≡ ok block
      → item.object_hash ≡ some (hash_block_as_hex ext bytes)
      → handle_block ext node block bytes item.object_hash db ≡ (db', ok is_new)
      → IsStored item bytes db db' none
  accept-IsStored item bytes block db db' is_new parsed same h =
      let (shards, checked) =
        handle_block-checks ext node block bytes item.object_hash db db' is_new h in
      (
        block,
        refl,
        parsed,
        (checked_shards-ok ext node block shards checked).0,
        same,
        ap (λ (r : Db × Result Bool). block_hashes r.0.blocks) (sym h)
            ∙ handle_block-hashes ext node block bytes item.object_hash shards db checked
            ∙ ap (add (block_hashes db.blocks))
                (hash_or-same item.object_hash (hash_block_as_hex ext bytes) same),
      )

  -- The statements after the test of the hash.
  handled-IsStored :
      (item : QItem) (bytes : List ℕ) (db db' : Db) (answer : Option Bool)
      → item.object_hash ≡ some (hash_block_as_hex ext bytes)
      → (lift (ext.deserialize_block bytes) >>= λ block.
            handle_block ext node block bytes item.object_hash >>= λ _. return none)
          db
        ≡ (db', ok answer)
      → IsStored item bytes db db' answer
  handled-IsStored item bytes db db' answer same h =
      let (t, block, q, k) = >>=-eq-ok (lift (ext.deserialize_block bytes)) _ h in
      let (u, is_new, q', k') =
        >>=-eq-ok (handle_block ext node block bytes item.object_hash) _ k in
      let here : t ≡ db = sym (ap (λ z. z.0) q) in
      let e : ◌≡◌ {A = Db × Result (Option Bool)} (u, ok none) (db', ok answer) = k' in
      let there : u ≡ db' = ap (λ z. z.0) e in
      let handled : handle_block ext node block bytes item.object_hash db ≡ (db', ok is_new) =
        subst (λ d. handle_block ext node block bytes item.object_hash d ≡ (db', ok is_new)) here
          (q' ∙ ap (λ d. (d, ok is_new)) there) in
      subst (IsStored item bytes db db') (ok-injective (ap (λ z. z.1) e))
        (accept-IsStored item bytes block db db' is_new (ap (λ z. z.1) q) same handled)

  -- An item of a queue that is accepted without an error is answered in one of two ways, never with true.
  -- Where its hash is not the one of its bytes, the answer is false and nothing is written. Otherwise the
  -- answer is undefined, the bytes are those of a block that passes the check of a storage node, and the
  -- hash of the bytes is stored.
  pub accept_lem :
      (item : QItem) (db db' : Db) (answer : Option Bool)
      → accept ext node item db ≡ (db', ok answer)
      → (bytes : List ℕ) × (base16_to_bytes item.object ≡ ok bytes)
        × (IsRefused item bytes db db' answer ⊎ IsStored item bytes db db' answer)
  unfolding accept
  accept_lem item db db' answer h =
      let (t, bytes, q, k) = >>=-eq-ok (lift (base16_to_bytes item.object)) _ h in
      let here : t ≡ db = sym (ap (λ z. z.0) q) in
      elim (Bool-cases (is_hash ext node item.object_hash (hash_block_as_hex ext bytes))) [
        | inr other ↦
            let e : ◌≡◌ {A = Db × Result (Option Bool)} (t, ok (some false)) (db', ok answer) =
              rw other at k in
            (
              bytes,
              ap (λ z. z.1) q,
              inl (
                  (
                    sym (ok-injective (ap (λ z. z.1) e)),
                    sym (ap (λ z. z.0) e) ∙ here,
                    is_hash-false item.object_hash (hash_block_as_hex ext bytes) other,
                  )),
            )
        | inl same ↦ (
          bytes,
          ap (λ z. z.1) q,
          inr (
              handled-IsStored item bytes db db' answer
                (is_hash-true item.object_hash (hash_block_as_hex ext bytes) same)
                (subst
                  (λ d.
                    (lift (ext.deserialize_block bytes) >>= λ block.
                    handle_block ext node block bytes item.object_hash >>= λ _. return none)
                      d
                    ≡ (db', ok answer))
                  here (rw same at k))),
        )
      ]
