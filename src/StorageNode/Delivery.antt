-- ===== src/StorageNode/Delivery.antt =====
-- From a block that a node accepts to the inbox that a wallet reads.
use mathlib.Core.List.{append-nil}
use push_snode.Base.{
  suc, ℕ, ◌*◌, ◌≤◌, String, ◌≡◌, refl, sym, ap, ◌∙◌, Bool, Bool-cases, true, ◌||◌, List, [], ◌∷◌,
  ◌++◌, Option, ok, inl, inr, ◌⊎◌, All, filter, map, any, length, arith, ◌==◌, nat_eq, string_eq,
  pair_eq,
}
use push_snode.Base.JsSet.{has, has-add_all}
use push_snode.Ext.{Ext}
use push_snode.Proto.{Block}
use push_snode.Db.{Db, InboxRow}
use push_snode.Utilz.Coll.{intersect_set}
use push_snode.StorageContractState.{get_node_shards}
use push_snode.DbHelper.{InboxKey, inbox_keys}
use push_snode.DbHelper.Inbox.{
  SortOrder, sort_order, Timestamp, first_micros, before, is_asked, insert_row, sort_rows,
  fetch_first, Item, to_item, PushGetTransactionsResult, page_of, get_transactions,
}
use push_snode.DbHelper.Inbox.Laws.{left_by_page, fetch_first-left, fetch_first-full}
use push_snode.IndexStorage.Laws.{block_keys}
use push_snode.StorageNode.{Node, checked_shards, handle_block}
use push_snode.StorageNode.Laws.{handle_block-true}

-- Some item of an answer has the key.
abbrev pub has_item : List Item → String → Bool
has_item items skey = any (λ (item : Item). item.skey == skey) items

abbrev has_skey : List InboxRow → String → Bool
has_skey rows skey = any (λ (row : InboxRow). row.skey == skey) rows

has_skey-insert_row :
    (s : SortOrder) (row : InboxRow) (rows : List InboxRow) (k : String)
    → has_skey (insert_row s row rows) k ≡ (row.skey == k || has_skey rows k)
unfolding insert_row
has_skey-insert_row s row [] k = refl
has_skey-insert_row s row (r ∷ rows) k = elim (Bool-cases (before s r.ts row.ts)) [
  | inl q ↦ rw (insert_row, q) (ground (arith, has_skey-insert_row s row rows k))
  | inr q ↦ rw (insert_row, q) refl
]

has_skey-sort_rows :
    (s : SortOrder) (rows : List InboxRow) (k : String)
    → has_skey (sort_rows s rows) k ≡ has_skey rows k
unfolding sort_rows
has_skey-sort_rows s [] k = refl
has_skey-sort_rows s (row ∷ rows) k =
    has_skey-insert_row s row (sort_rows s rows) k
    ∙ ap (λ b. row.skey == k || b) (has_skey-sort_rows s rows k)

has_item-map :
    (category : String) (rows : List InboxRow) (k : String)
    → has_item (map (to_item category) rows) k ≡ has_skey rows k
has_item-map category [] k = refl
has_item-map category (row ∷ rows) k = ap (λ b. row.skey == k || b) (has_item-map category rows k)

length-map {ℓ κ} :
    {A : Type ℓ} {B : Type κ} (f : A → B) (xs : List A) → length (map f xs) ≡ length xs
length-map f [] = refl
length-map f (x ∷ xs) = ap suc (length-map f xs)

fetch_first-whole :
    (n : ℕ) (rows : List InboxRow) → left_by_page n rows ≡ [] → fetch_first n rows ≡ rows
fetch_first-whole n rows nothing =
    sym (append-nil (fetch_first n rows))
    ∙ ap (λ z. fetch_first n rows ++ z) (sym nothing)
    ∙ fetch_first-left n rows

-- Every row is in the range of the request.
abbrev pub InRange : SortOrder → ℕ → List InboxRow → Type 0
InRange order first rows = All (λ (row : InboxRow). before order first (1000 * row.ts) ≡ true) rows

module _ (category wallet : String) (order : SortOrder) (first : ℕ) where
  -- A key of the inbox is found by the query.
  has_skey-filter :
      (shard : ℕ) (k : String) (rows : List InboxRow)
      → InRange order first rows
      → has (inbox_keys rows) (category, (shard, (wallet, k))) ≡ true
      → has_skey (filter (is_asked category wallet order first) rows) k ≡ true
  unfolding inbox_keys has
  has_skey-filter shard k [] range h = cc
  has_skey-filter shard k (row ∷ rows) (here, rest) h =
      ground (arith, here, h, has_skey-filter shard k rows rest)

-- When a node has accepted a block, answering true, and a wallet then reads its inbox of a
-- category, the read succeeds and its answer has each transaction of the block that the block has
-- a key for in that inbox, or is a full page of 30 items at least. The keys are those of the
-- block's wallets whose shard is among the shards that the block and the node have in common, or
-- of all its wallets with a shard where they have none in common. The order and the time of the
-- request are well-formed, and every row of the inboxes is in its range.
pub delivery_lem :
    (ext : Ext) (node : Node) (block : Block) (raw : List ℕ) (hash : Option String) (db db' : Db)
    (now_seconds : ℕ) (wallet category : String) (first_ts : Timestamp) (sort : Option String)
    (order : SortOrder) (first : ℕ)
    → handle_block ext node block raw hash db ≡ (db', ok true)
    → sort_order sort ≡ ok order
    → first_micros now_seconds first_ts ≡ ok first
    → InRange order first db'.storage_node
    → (shards node_shards : List ℕ) × (answer : PushGetTransactionsResult) × (checked_shards ext
          node block
        ≡ ok shards)
      × (get_node_shards node.storage_contract_state ≡ ok node_shards)
      × (get_transactions now_seconds wallet category first_ts sort db' ≡ ok answer)
      × ((shard : ℕ) (skey : String)
          → has
              (block_keys ext node.storage_contract_state.shard_count
                (intersect_set shards node_shards)
                block.txobj)
              (category, (shard, (wallet, skey)))
            ≡ true
          → (has_item answer.items skey ≡ true) ⊎ (30 ≤ length answer.items))
unfolding get_transactions page_of
delivery_lem ext node block raw hash db db' now_seconds wallet category first_ts sort order first
      accepted is_order is_first range =
    let (shards, node_shards, _, _, checked, served, _, _, keys) =
      handle_block-true ext node block raw hash db db' accepted in
    let asked : List InboxRow = filter (is_asked category wallet order first) db'.storage_node in
    let rows : List InboxRow = sort_rows order asked in
    let added : List InboxKey =
      block_keys ext node.storage_contract_state.shard_count (intersect_set shards node_shards)
        block.txobj in
    (
      shards,
      node_shards,
      page_of category (fetch_first 30 rows),
      checked,
      served,
      rw (get_transactions, is_order, is_first) refl,
      λ shard skey new.
          let key : InboxKey = (category, (shard, (wallet, skey))) in
          let stored : has (inbox_keys db'.storage_node) key ≡ true =
            ap (λ ks. has ks key) keys
            ∙ has-add_all (inbox_keys db.storage_node) added key
            ∙ ground (arith, new) in
          let found : has_skey rows skey ≡ true =
            has_skey-sort_rows order asked skey
            ∙ has_skey-filter category wallet order first shard skey db'.storage_node range
                stored in
          elim (fetch_first-full 30 rows) [
            | inr full ↦
                inr (omega (arith, full, length-map (to_item category) (fetch_first 30 rows)))
            | inl nothing ↦ inl (
                has_item-map category (fetch_first 30 rows) skey
                ∙ ap (λ z. has_skey z skey) (fetch_first-whole 30 rows nothing)
                ∙ found)
          ],
    )
