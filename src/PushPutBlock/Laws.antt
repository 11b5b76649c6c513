-- ===== src/PushPutBlock/Laws.antt =====
-- What the answers to a request mean.
use push_snode.Base.{
  ◌==◌, ℕ, String, ◌≡◌, refl, sym, ap, ◌∙◌, subst, inl, inr, Bool, true, false, List, [], ◌∷◌, none,
  Result, ok, throw, Bool-cases, Result-cases, ==_iff, ==_self, arith, length, string_eq, suc,
}
use push_snode.Base.JsSet.{has, has-add, IsDistinct}
use push_snode.Base.Steps.{lift, >>=-eq-ok}
use push_snode.Ext.{Ext}
use push_snode.Db.{Db}
use push_snode.Utilz.StrUtil
use push_snode.Utilz.BitUtil.Hex.{hex0x_remove, base16_to_bytes}
use push_snode.BlockStorage.{block_hashes}
use push_snode.StorageNode.{Node, handle_block, hash_block_as_hex}
use push_snode.StorageNode.Laws.{handle_block-true}
use push_snode.StorageNode.History.{History, beginning, handled, History-has}
use push_snode.PushPutBlock.{
  BlockResult, accepted, rejected, block_result, store_block, handle_one_block, execute,
}

-- The bytes that a text of a request stands for.
abbrev pub text_bytes : Ext → String → Result (List ℕ)
text_bytes ext text = base16_to_bytes (ext.to_lower_case (hex0x_remove ext.to_lower_case text))

-- The hash of its block is added to the list, if it has one.
abbrev with_hash : Ext → Result (List ℕ) → List String → List String
with_hash ext (ok bytes) hashes = hash_block_as_hex ext bytes ∷ hashes
with_hash ext (throw e) hashes = hashes

-- The hashes of the texts that were answered with ACCEPTED.
abbrev pub accepted_hashes : Ext → List String → List BlockResult → List String
accepted_hashes ext [] results = []
accepted_hashes ext (text ∷ texts) [] = []
accepted_hashes ext (text ∷ texts) (accepted ∷ results) =
    with_hash ext (text_bytes ext text) (accepted_hashes ext texts results)
accepted_hashes ext (text ∷ texts) (rejected reason ∷ results) = accepted_hashes ext texts results

block_result-accepted : (r : Result Bool) → block_result r ≡ accepted → r ≡ ok true
block_result-accepted (ok true) h = refl
block_result-accepted (ok false) h = cc
block_result-accepted (throw e) h = cc

module _ (ext : Ext) (node : Node) where
  store_block-History : (text : String) (db : Db) → History ext db (store_block ext node text db).0
  unfolding store_block
  store_block-History text db = elim (Result-cases (text_bytes ext text)) [
    | inr (e, q) ↦ rw q beginning
    | inl (bytes, q) ↦ elim (Result-cases (ext.deserialize_block bytes)) [
      | inr (e, r) ↦ rw (q, r) beginning
      | inl (block, r) ↦ rw (q, r) (handled beginning node block bytes none)
    ]
  ]

  handle_one_block-History :
      (text : String) (db : Db) → History ext db (handle_one_block ext node text db).0
  unfolding handle_one_block
  handle_one_block-History text db = elim (Bool-cases (StrUtil.is_empty text)) [
    | inl q ↦ rw q beginning
    | inr q ↦ rw q (store_block-History text db)
  ]

  -- The bytes of a text are new, and are stored.
  IsNew : String → Db → Db → Type 0
  IsNew text db db' =
      (bytes : List ℕ) × (text_bytes ext text ≡ ok bytes)
      × (has (block_hashes db.blocks) (hash_block_as_hex ext bytes) ≡ false)
      × (has (block_hashes db'.blocks) (hash_block_as_hex ext bytes) ≡ true)

  store_block-true :
      (text : String) (db db' : Db)
      → store_block ext node text db ≡ (db', ok true)
      → IsNew text db db'
  unfolding store_block IsNew
  store_block-true text db db' h =
      let (t, bytes, q, k) = >>=-eq-ok (lift (text_bytes ext text)) _ h in
      let (t', block, q', k') = >>=-eq-ok (lift (ext.deserialize_block bytes)) _ k in
      let at_db : t' ≡ db = sym (ap (λ z. z.0) q') ∙ sym (ap (λ z. z.0) q) in
      let (shards, node_shards, _, _, _, served, fresh, stored, boxes) =
        handle_block-true ext node block bytes none db db'
          (subst (λ d. handle_block ext node block bytes none d ≡ (db', ok true)) at_db k') in
      (
        bytes,
        ap (λ z. z.1) q,
        fresh,
        ap (λ hs. has hs (hash_block_as_hex ext bytes)) stored
            ∙ has-add (block_hashes db.blocks) (hash_block_as_hex ext bytes)
                (hash_block_as_hex ext bytes)
            ∙ ground (arith, ==_self (hash_block_as_hex ext bytes)),
      )

  handle_one_block-accepted :
      (text : String) (db : Db)
      → (handle_one_block ext node text db).1 ≡ accepted
      → IsNew text db (handle_one_block ext node text db).0
  unfolding handle_one_block
  handle_one_block-accepted text db h = elim (Bool-cases (StrUtil.is_empty text)) [
    | inl q ↦ cc (rw q at h)
    | inr q ↦
        let answer : (store_block ext node text db).1 ≡ ok true =
          block_result-accepted (store_block ext node text db).1 (rw q at h) in
        rw q (
          store_block-true text db (store_block ext node text db).0
            (ap (λ r. ((store_block ext node text db).0, r)) answer))
  ]

  -- A hash that is stored stays stored.
  execute-has :
      (texts : List String) (db : Db) (hash : String)
      → has (block_hashes db.blocks) hash ≡ true
      → has (block_hashes (execute ext node texts db).0.blocks) hash ≡ true
  unfolding execute
  execute-has [] db hash h = h
  execute-has (text ∷ texts) db hash h =
      let next : Db = (handle_one_block ext node text db).0 in
      execute-has texts next hash
        (History-has ext db next hash (handle_one_block-History text db) h)

  -- The accepted hashes are distinct, none was stored before, and all are stored after.
  abbrev pub AreNew : List String → List BlockResult → Db → Db → Type 0
  AreNew texts results db db' =
      IsDistinct (accepted_hashes ext texts results)
      × ((hash : String)
          → has (accepted_hashes ext texts results) hash ≡ true
          → (has (block_hashes db.blocks) hash ≡ false)
            × (has (block_hashes db'.blocks) hash ≡ true))

  -- The stored hashes of one database are stored in the other.
  abbrev IsKept : Db → Db → Type 0
  IsKept db db' =
      (hash : String)
      → has (block_hashes db.blocks) hash ≡ true
      → has (block_hashes db'.blocks) hash ≡ true

  not_before :
      (db next : Db) (hash : String)
      → IsKept db next
      → has (block_hashes next.blocks) hash ≡ false
      → has (block_hashes db.blocks) hash ≡ false
  not_before db next hash kept h = elim (Bool-cases (has (block_hashes db.blocks) hash)) [
    | inl q ↦ cc (kept hash q, h)
    | inr q ↦ q
  ]

  push-AreNew :
      (br : BlockResult) (text : String) (texts : List String) (results : List BlockResult)
      (db next db' : Db)
      → IsKept db next
      → IsKept next db'
      → (br ≡ accepted → IsNew text db next)
      → AreNew texts results next db'
      → AreNew (text ∷ texts) (br ∷ results) db db'
  push-AreNew (rejected reason) text texts results db next db' kept kept' is_new (d, rest) = (
    d,
    λ hash h. let (fresh, stored) = rest hash h in (not_before db next hash kept fresh, stored),
  )
  push-AreNew accepted text texts results db next db' kept kept' is_new (d, rest) =
      unfold IsNew has in
      let (bytes, q, fresh, stored) = is_new refl in
      let hash : String = hash_block_as_hex ext bytes in
      let hashes : List String = accepted_hashes ext texts results in
      let absent : has hashes hash ≡ false = elim (Bool-cases (has hashes hash)) [
        | inl r ↦ cc ((rest hash r).0, stored)
        | inr r ↦ r
      ] in
      rw q (
        (absent, d),
        λ k h. elim (Bool-cases (hash == k)) [
          | inl same ↦
              subst
                (λ z.
                  (has (block_hashes db.blocks) z ≡ false)
                  × (has (block_hashes db'.blocks) z ≡ true))
                ((==_iff hash k).0 same) ((fresh, kept' hash stored))
          | inr other ↦
              let (fresh', stored') = rest k (rw other at h) in
              (not_before db next k kept fresh', stored')
        ],
      )

  execute-AreNew :
      (texts : List String) (db : Db)
      → AreNew texts (execute ext node texts db).1 db (execute ext node texts db).0
  unfolding execute has
  execute-AreNew [] db = (tt, λ hash h. cc)
  execute-AreNew (text ∷ texts) db =
      let next : Db = (handle_one_block ext node text db).0 in
      push-AreNew (handle_one_block ext node text db).1 text texts (execute ext node texts next).1
        db next (execute ext node texts next).0
        (λ hash h. History-has ext db next hash (handle_one_block-History text db) h)
        (execute-has texts next) (handle_one_block-accepted text db) (execute-AreNew texts next)

  length-execute :
      (texts : List String) (db : Db) → length (execute ext node texts db).1 ≡ length texts
  unfolding execute
  length-execute [] db = refl
  length-execute (text ∷ texts) db =
      ap suc (length-execute texts (handle_one_block ext node text db).0)

  -- A request gets one answer for each of its texts. The hashes of the blocks that are answered with
  -- ACCEPTED are distinct; none of them was stored before the request, and all are stored after it, as
  -- is every hash that was stored before.
  pub execute_lem :
      (texts : List String) (db : Db)
      → let (db', result) = execute ext node texts db in
        (length result ≡ length texts)
        × IsDistinct (accepted_hashes ext texts result)
        × ((hash : String)
            → has (accepted_hashes ext texts result) hash ≡ true
            → (has (block_hashes db.blocks) hash ≡ false)
              × (has (block_hashes db'.blocks) hash ≡ true))
        × ((hash : String)
            → has (block_hashes db.blocks) hash ≡ true
            → has (block_hashes db'.blocks) hash ≡ true)
  execute_lem texts db =
      let (distinct, fresh) = execute-AreNew texts db in
      (length-execute texts db, distinct, fresh, execute-has texts db)
