-- ===== src/BlockPolling/Rounds.antt =====
-- One round of a client, and the lists that it takes apart.
use push_snode.Base.{
  ℕ, zero, suc, ◌≤◌, String, ◌≡◌, refl, true, ◌&&◌, ◌||◌, List, [], ◌∷◌, Option, ok, Result-cases,
  inl, inr, take, drop, length, arith, string_eq,
}
use push_snode.Base.JsSet.{has, has-filter}
use push_snode.Ext.{Ext}
use push_snode.Db.{Db}
use push_snode.BlockStorage.{block_hashes, get_bulk_block_hashes}
use push_snode.StorageNode.{Node}
use push_snode.SyncTable.{ViewRow}
use push_snode.StorageSyncClient.{page_size, update_already_synced_shards}
use push_snode.Views.{hashes_of}
use push_snode.Views.Laws.{view_has}
use push_snode.BlockPolling.{
  Remote, ClientRun, Shared, array_or_empty, exhaust, process_page, client_round,
}

pub has-bulk :
    (db : Db) (hashes : List String) (h : String)
    → has (get_bulk_block_hashes db hashes) h ≡ (has (block_hashes db.blocks) h && has hashes h)
unfolding get_bulk_block_hashes
has-bulk db hashes h = has-filter (λ k. has hashes k) (block_hashes db.blocks) h

pub length-drop-le {ℓ} : {A : Type ℓ} (n : ℕ) (xs : List A) → length (drop n xs) ≤ length xs
length-drop-le zero xs = omega arith
length-drop-le (suc n) [] = omega arith
length-drop-le (suc n) (x ∷ xs) = omega (arith, length-drop-le n xs)

-- A list is its beginning and its end.
pub has-take-drop :
    (n : ℕ) (rows : List ViewRow) (h : String)
    → has (hashes_of rows) h ≡ (has (hashes_of (take n rows)) h || has (hashes_of (drop n rows)) h)
unfolding has
has-take-drop zero rows h = refl
has-take-drop (suc n) [] h = refl
has-take-drop (suc n) (row ∷ rows) h = ground (arith, has-take-drop n rows h)

pub client_round-answer :
    (ext : Ext) (node : Node) (remote : Remote) (shard_id : ℕ) (run : ClientRun) (sh : Shared)
    (hashes : Option (List String))
    → remote.push_get_block_hash_from_view run.client.view_name shard_id run.last_synced_page
        page_size
      ≡ ok hashes
    → client_round ext node remote shard_id run sh
      ≡ process_page ext node remote shard_id (array_or_empty hashes) run sh
unfolding client_round
client_round-answer ext node remote shard_id run sh hashes e = rw (client_round, e) refl

pub view_has-has :
    (ids : List ℕ) (rows : List ViewRow) (h : String)
    → view_has ids rows h ≡ true
    → has (hashes_of rows) h ≡ true
unfolding has
view_has-has ids [] h q = cc
view_has-has ids (row ∷ rows) h q = ground (arith, view_has-has ids rows h)

-- After the branch of an empty page the loop is left; no block is stored by it.
pub exhaust-done :
    (ext : Ext) (node : Node) (remote : Remote) (shard_id : ℕ) (run : ClientRun) (sh : Shared)
    → ((exhaust ext node remote shard_id run sh).0.done ≡ true)
      × ((exhaust ext node remote shard_id run sh).1.db ≡ sh.db)
unfolding exhaust
exhaust-done ext node remote shard_id run sh =
    elim (Result-cases (update_already_synced_shards shard_id run.client sh.sync).1) [
      | inl (u, e) ↦ rw (exhaust, e) ((refl, refl))
      | inr (x, e) ↦ rw (exhaust, e) ((refl, refl))
    ]
