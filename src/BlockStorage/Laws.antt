-- ===== src/BlockStorage/Laws.antt =====
-- The primary key of `blocks`, and which hashes are stored.
use push_snode.Base.{
  ℕ, ◌<◌, String, Bool, true, false, not, Option, All, any, ltb, nat_beq, nat_eq, ◌&&◌, ◌∙◌, none,
  some, List, [], ◌∷◌, ◌++◌, ◌≡◌, refl, ap, arith, Bool-cases, inl, inr, if◌then◌else◌, filter,
  ◌==◌, ==_iff, string_eq,
}
use push_snode.Base.JsSet.{has, add, has-filter, of_list, IsDistinct, of_list-IsDistinct}
use push_snode.Base.JsMap.{JsMap, get, set, get-set}
use push_snode.Ext.{Ext}
use push_snode.Proto.{Block}
use push_snode.Db.{Db, BlockRow, ContractShardsRow}
use push_snode.BlockStorage.{
  block_hashes, insert_block, save_block_with_shard_data, get_bulk_block_hashes, fill_hash_map,
  get_block_hash_map, latest, shards_of, load_node_shards, save_node_shards,
}

hashes-append :
    (rows : List BlockRow) (row : BlockRow)
    → block_hashes (rows ++ row ∷ []) ≡ block_hashes rows ++ row.object_hash ∷ []
unfolding block_hashes
hashes-append [] row = refl
hashes-append (r ∷ rows) row = ap (λ hs. r.object_hash ∷ hs) (hashes-append rows row)

module _ (ext : Ext) (mb : Block) (hash : String) (shard_set : List ℕ) (mb_raw : String) where
  -- Saving a block adds its hash, answers whether the hash is new, and leaves the inboxes alone.
  pub save_block_with_shard_data_lem :
      (db : Db)
      → let saved : Db × Bool = save_block_with_shard_data ext mb hash shard_set mb_raw db in
        (block_hashes saved.0.blocks ≡ add (block_hashes db.blocks) hash)
        × (saved.1 ≡ not (has (block_hashes db.blocks) hash))
        × (saved.0.storage_node ≡ db.storage_node)
  unfolding save_block_with_shard_data insert_block add
  save_block_with_shard_data_lem db = elim (Bool-cases (has (block_hashes db.blocks) hash)) [
    | inl q ↦ rw q ((refl, refl, refl))
    | inr q ↦ rw q ((hashes-append db.blocks _, refl, refl))
  ]

get-fill_hash_map :
    (res hashes : List String) (m : JsMap String Bool) (hash : String)
    → get (fill_hash_map res hashes m) hash
      ≡ (if has hashes hash then some (has res hash) else get m hash)
unfolding fill_hash_map has
get-fill_hash_map res [] m hash = refl
get-fill_hash_map res (h ∷ hs) m hash =
    let e : get (fill_hash_map res hs (set m h (has res h))) hash
        ≡ (if has hs hash then some (has res hash) else get (set m h (has res h)) hash) =
      get-fill_hash_map res hs (set m h (has res h)) hash in
    elim (Bool-cases (has hs hash)) [
      | inl q ↦ ground (arith, e)
      | inr q ↦ elim (Bool-cases (h == hash)) [
        | inl same ↦
            let p : h ≡ hash = (==_iff h hash).0 same in
            let r : some (has res h) ≡ some (has res hash) = ap (λ z. some (has res z)) p in
            ground (arith, e, get-set m h hash (has res h))
        | inr other ↦ ground (arith, e, get-set m h hash (has res h))
      ]
    ]

-- A hash of the request is mapped to whether its block is stored, and no other hash is mapped.
pub get_block_hash_map_lem :
    (db : Db) (hashes : List String) (hash : String)
    → get (get_block_hash_map db hashes) hash
      ≡ (if has hashes hash then some (has (block_hashes db.blocks) hash) else none)
unfolding get_block_hash_map get_bulk_block_hashes get
get_block_hash_map_lem db hashes hash =
    let stored : List String = filter (λ h. has hashes h) (block_hashes db.blocks) in
    let e : has stored hash ≡ (has (block_hashes db.blocks) hash && has hashes hash) =
      has-filter (λ h. has hashes h) (block_hashes db.blocks) hash in
    elim (Bool-cases (has hashes hash)) [
      | inl q ↦ get-fill_hash_map stored hashes [] hash ∙ rw q (ap some (e ∙ rw q (ground arith)))
      | inr q ↦ get-fill_hash_map stored hashes [] hash ∙ rw q refl
    ]

abbrev IsEarlier : ℕ → Option ContractShardsRow → Type 0
IsEarlier now none = Unit
IsEarlier now (some row) = row.ts < now

-- Every row of the table is from before the time.
abbrev pub AreEarlier : ℕ → List ContractShardsRow → Type 0
AreEarlier now rows = All (λ (row : ContractShardsRow). row.ts < now) rows

latest-last :
    (now : ℕ) (shards : List ℕ) (rows : List ContractShardsRow) (found : Option ContractShardsRow)
    → AreEarlier now rows
    → IsEarlier now found
    → latest (rows ++ record { ts = now; shards_assigned = shards } ∷ []) found
      ≡ some (record { ts = now; shards_assigned = shards })
unfolding latest
latest-last now shards [] none rest first = refl
latest-last now shards [] (some f) rest first =
    let older : ltb f.ts now ≡ true = ground (arith, first) in rw (latest, older) refl
latest-last now shards (r ∷ rows) none (here, rest) first =
    latest-last now shards rows (some r) rest here
latest-last now shards (r ∷ rows) (some f) (here, rest) first = elim (Bool-cases (ltb f.ts r.ts)) [
  | inl q ↦ rw (latest, q) (latest-last now shards rows (some r) rest here)
  | inr q ↦ rw (latest, q) (latest-last now shards rows (some f) rest first)
]

none_at :
    (now : ℕ) (rows : List ContractShardsRow)
    → AreEarlier now rows
    → any (λ (row : ContractShardsRow). nat_beq row.ts now) rows ≡ false
none_at now [] rest = refl
none_at now (row ∷ rows) (here, rest) = ground (arith, here, none_at now rows rest)

-- What is saved last is loaded.
pub load_node_shards-save_node_shards :
    (now : ℕ) (shards : List ℕ) (db : Db)
    → AreEarlier now db.contract_shards
    → load_node_shards (save_node_shards now shards db) ≡ of_list shards
unfolding load_node_shards save_node_shards latest
load_node_shards-save_node_shards now shards db earlier =
    rw (none_at now db.contract_shards earlier)
      (ap shards_of (latest-last now shards db.contract_shards none earlier tt))

shards_of-IsDistinct : (row : Option ContractShardsRow) → IsDistinct (shards_of row)
shards_of-IsDistinct none = tt
shards_of-IsDistinct (some row) = of_list-IsDistinct row.shards_assigned

pub load_node_shards-IsDistinct : (db : Db) → IsDistinct (load_node_shards db)
unfolding load_node_shards
load_node_shards-IsDistinct db = shards_of-IsDistinct (latest db.contract_shards none)

-- Saving shards leaves the inboxes and the blocks alone.
pub save_node_shards-rest :
    (now : ℕ) (shards : List ℕ) (db : Db)
    → ((save_node_shards now shards db).storage_node ≡ db.storage_node)
      × ((save_node_shards now shards db).blocks ≡ db.blocks)
unfolding save_node_shards
save_node_shards-rest now shards db =
    elim (Bool-cases (any (λ (row : ContractShardsRow). nat_beq row.ts now) db.contract_shards)) [
      | inl q ↦ rw q ((refl, refl))
      | inr q ↦ rw q ((refl, refl))
    ]
