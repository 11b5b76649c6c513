-- ===== src/BlockPolling/Fetching.antt =====
-- The blocks of one page: what is stored after they are fetched.
use push_snode.Base.{
  ℕ, String, ◌≡◌, refl, ap, ◌∙◌, subst, Bool, true, ◌&&◌, List, [], ◌∷◌, none, some, ok,
  Result-cases, Bool-cases, inl, inr, All, filter, map, ◌==◌, ==_iff, ==_self, arith, string_eq,
}
use push_snode.Base.JsSet.{has, has-add}
use push_snode.Base.JsMap.{get}
use push_snode.Ext.{Ext}
use push_snode.Proto.{Block}
use push_snode.Db.{Db}
use push_snode.Utilz.BitUtil.Hex.{base16_to_bytes}
use push_snode.BlockStorage.{block_hashes}
use push_snode.StorageNode.{Node, handle_block, checked_shards, hash_block_as_hex}
use push_snode.StorageNode.Laws.{handle_block-hashes}
use push_snode.StorageNode.History.{History, beginning, handled, History-has}
use push_snode.SyncTable.{ViewRow, SyncDb}
use push_snode.Views.{
  TieOrder, hashes_of, select_from, get_block_info_from_view_based_on_block_hashs,
}
use push_snode.BlockPolling.{serve, process_block, process_blocks, fetch_missing}

-- The raw block of a row can be read, passes the checks of the node, and has the hash of the row.
pub record IsServable (ext : Ext) (node : Node) (row : ViewRow) : Type 0 where
  pub bytes : List ℕ
  pub block : Block
  pub shards : List ℕ
  pub is_hex : base16_to_bytes row.object_raw ≡ ok bytes
  pub is_block : ext.deserialize_block bytes ≡ ok block
  pub passes : checked_shards ext node block ≡ ok shards
  pub is_hash : hash_block_as_hex ext bytes ≡ row.object_hash

abbrev pub IsStored : Db → String → Type 0
IsStored db hash = has (block_hashes db.blocks) hash ≡ true

abbrev pub raws_of : List ViewRow → List String
raws_of rows = map (λ (row : ViewRow). row.object_raw) rows

pub History-trans : {ext : Ext} {a b c : Db} → History ext a b → History ext b c → History ext a c
History-trans h beginning = h
History-trans h (handled k node block raw hash) = handled (History-trans h k) node block raw hash

module _ (ext : Ext) (node : Node) where
  process_block-History :
      (text : String) (db : Db) → History ext db (process_block ext node text db)
  unfolding process_block
  process_block-History text db = elim (Result-cases (base16_to_bytes text)) [
    | inr (e, q) ↦ rw (process_block, q) beginning
    | inl (bytes, q) ↦ elim (Result-cases (ext.deserialize_block bytes)) [
      | inr (e, r) ↦ rw (process_block, q, r) beginning
      | inl (block, r) ↦ rw (process_block, q, r) (handled beginning node block bytes none)
    ]
  ]

  process_block-IsStored :
      (row : ViewRow) (db : Db)
      → IsServable ext node row
      → IsStored (process_block ext node row.object_raw db) row.object_hash
  unfolding process_block
  process_block-IsStored row db s =
      let hash : String = hash_block_as_hex ext s.bytes in
      let stored : IsStored (handle_block ext node s.block s.bytes none db).0 hash =
        ap (λ hs. has hs hash)
          (handle_block-hashes ext node s.block s.bytes none s.shards db s.passes)
        ∙ has-add (block_hashes db.blocks) hash hash
        ∙ ground (arith, ==_self hash) in
      rw (process_block, s.is_hex, s.is_block)
        (subst (λ h. IsStored (handle_block ext node s.block s.bytes none db).0 h) s.is_hash stored)

  pub process_blocks-History :
      (texts : List String) (db : Db) → History ext db (process_blocks ext node texts db)
  unfolding process_blocks
  process_blocks-History [] db = beginning
  process_blocks-History (text ∷ texts) db =
      History-trans (process_block-History text db)
        (process_blocks-History texts (process_block ext node text db))

  process_blocks-IsStored :
      (rows : List ViewRow) (db : Db) (hash : String)
      → All (IsServable ext node) rows
      → has (hashes_of rows) hash ≡ true
      → IsStored (process_blocks ext node (raws_of rows) db) hash
  unfolding process_blocks has
  process_blocks-IsStored [] db hash s h = cc
  process_blocks-IsStored (row ∷ rows) db hash (s, rest) h =
      let next : Db = process_block ext node row.object_raw db in
      elim (Bool-cases (row.object_hash == hash)) [
        | inl here ↦
            History-has ext next (process_blocks ext node (raws_of rows) next) hash
              (process_blocks-History (raws_of rows) next)
              (subst (IsStored next) ((==_iff row.object_hash hash).0 here)
                (process_block-IsStored row db s))
        | inr later ↦ process_blocks-IsStored rows next hash rest (rw later at h)
      ]

  All-filter :
      (p : ViewRow → Bool) (rows : List ViewRow)
      → All (IsServable ext node) rows
      → All (IsServable ext node) (filter p rows)
  All-filter p [] s = tt
  All-filter p (row ∷ rows) (s, rest) = elim (Bool-cases (p row)) [
    | inl q ↦ rw q ((s, All-filter p rows rest))
    | inr q ↦ rw q (All-filter p rows rest)
  ]

  has-filter_hashes :
      (hashes : List String) (rows : List ViewRow) (h : String)
      → has (hashes_of (filter (λ row. has hashes row.object_hash) rows)) h
        ≡ (has hashes h && has (hashes_of rows) h)
  unfolding has
  has-filter_hashes hashes [] h = ground arith
  has-filter_hashes hashes (row ∷ rows) h = elim (Bool-cases (row.object_hash == h)) [
    | inl same ↦
        let e : has hashes row.object_hash ≡ has hashes h =
          ap (λ z. has hashes z) ((==_iff row.object_hash h).0 same) in
        ground (arith, e, same, has-filter_hashes hashes rows h)
    | inr other ↦ ground (arith, other, has-filter_hashes hashes rows h)
  ]

  module _ (ties : ℕ → TieOrder) (later : ℕ) (server : SyncDb) (view_name : String)
      (rows : List ViewRow) (found : get server.views view_name ≡ some rows)
      (served : All (IsServable ext node) rows) (shard_id : ℕ) where
    -- What is missing is stored, if the view has it.
    pub fetch_missing-IsStored :
        (missing : List String) (db : Db)
        → (db' : Db) × (fetch_missing ext node
              (serve ties later server)
              shard_id
              view_name
              missing
              db
            ≡ ok db')
          × History ext db db'
          × ((h : String) → has missing h ≡ true → has (hashes_of rows) h ≡ true → IsStored db' h)
    unfolding fetch_missing serve get_block_info_from_view_based_on_block_hashs
    fetch_missing-IsStored [] db = (db, refl, beginning, λ h q. unfold has in cc)
    fetch_missing-IsStored (hash ∷ hashes) db =
        let asked : List ViewRow = filter (λ row. has (hash ∷ hashes) row.object_hash) rows in
        let answered : get_block_info_from_view_based_on_block_hashs view_name (hash ∷ hashes)
              server
            ≡ ok (raws_of asked) =
          rw (get_block_info_from_view_based_on_block_hashs, select_from, found) refl in
        (
          process_blocks ext node (raws_of asked) db,
          rw (fetch_missing, answered) refl,
          process_blocks-History (raws_of asked) db,
          λ h missing there.
              process_blocks-IsStored asked db h
                (All-filter (λ row. has (hash ∷ hashes) row.object_hash) rows served)
                (ground (arith, has-filter_hashes (hash ∷ hashes) rows h, missing, there)),
        )
