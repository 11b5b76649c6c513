-- ===== src/BlockPolling/Clients/Safety.antt =====
-- What the rounds of the clients may do to the blocks and the inboxes.
use push_snode.Base.{
  ℕ, String, ◌≡◌, sym, subst, List, [], ◌∷◌, ◌++◌, ok, ok-injective, Result-cases, inl, inr, not,
  filter, string_eq,
}
use push_snode.Base.JsSet.{has}
use push_snode.Ext.{Ext}
use push_snode.Db.{Db}
use push_snode.BlockStorage.{get_bulk_block_hashes}
use push_snode.StorageNode.{Node}
use push_snode.StorageNode.History.{History, beginning}
use push_snode.StorageSyncClient.{update_last_synced_page_number, page_size}
use push_snode.BlockPolling.{
  Remote, ClientRun, Shared, fetch_missing, store_page, process_page, client_round, array_or_empty,
}
use push_snode.BlockPolling.Fetching.{History-trans, process_blocks-History}
use push_snode.BlockPolling.Rounds.{exhaust-done}
use push_snode.BlockPolling.Clients.{Rounds, no_rounds, next_round}

module _ (ext : Ext) (node : Node) (remote : Remote) (shard_id : ℕ) where
  -- Whatever is fetched goes through the handler of blocks.
  fetch_missing-History :
      (view_name : String) (missing : List String) (db db' : Db)
      → fetch_missing ext node remote shard_id view_name missing db ≡ ok db'
      → History ext db db'
  unfolding fetch_missing
  fetch_missing-History view_name [] db db' e = subst (History ext db) (ok-injective e) beginning
  fetch_missing-History view_name (hash ∷ hashes) db db' e =
      elim (Result-cases (remote.push_get_blocks_from_hashes view_name (hash ∷ hashes))) [
        | inl (texts, q) ↦
            subst (History ext db) (ok-injective (rw (fetch_missing, q) at e))
              (process_blocks-History ext node texts db)
        | inr (x, q) ↦ cc (rw (fetch_missing, q) at e)
      ]

  store_page-History :
      (hashes : List String) (run : ClientRun) (sh : Shared)
      → History ext sh.db (store_page ext node remote shard_id hashes run sh).1.db
  unfolding store_page update_last_synced_page_number
  store_page-History hashes run sh =
      let missing : List String =
        filter (λ h. not (has (get_bulk_block_hashes sh.db hashes) h)) hashes in
      elim (Result-cases
        (fetch_missing ext node remote shard_id run.client.view_name missing sh.db)) [
          | inl (db', q) ↦
              rw (store_page, q) (fetch_missing-History run.client.view_name missing sh.db db' q)
          | inr (e, q) ↦ rw (store_page, q) beginning
        ]

  process_page-History :
      (hashes : List String) (run : ClientRun) (sh : Shared)
      → History ext sh.db (process_page ext node remote shard_id hashes run sh).1.db
  unfolding process_page
  process_page-History [] run sh =
      subst (History ext sh.db) (sym (exhaust-done ext node remote shard_id run sh).1) beginning
  process_page-History (hash ∷ hashes) run sh = store_page-History (hash ∷ hashes) run sh

  pub client_round-History :
      (run : ClientRun) (sh : Shared)
      → History ext sh.db (client_round ext node remote shard_id run sh).1.db
  unfolding client_round
  client_round-History run sh =
      elim (Result-cases (
        remote.push_get_block_hash_from_view run.client.view_name shard_id run.last_synced_page
          page_size)) [
            | inl (hashes, q) ↦
                rw (client_round, q) (process_page-History (array_or_empty hashes) run sh)
            | inr (e, q) ↦ rw (client_round, q) beginning
          ]

-- Whatever the other nodes answer, and in whatever order the clients of a shard take their rounds,
-- of which each is one step, blocks and inboxes change by nothing but blocks that are handled.
pub Rounds-History :
    (ext : Ext) (shard_id : ℕ) (start : List (Remote × ClientRun)) (from : Shared)
    (clients : List (Remote × ClientRun)) (sh : Shared)
    → Rounds ext shard_id start from clients sh
    → History ext from.db sh.db
Rounds-History ext shard_id start from _ _ no_rounds = beginning
Rounds-History ext shard_id start from _ _
      (next_round before after remote run sh rounds going node) =
    History-trans
      (Rounds-History ext shard_id start from (before ++ (remote, run) ∷ after) sh rounds)
      (client_round-History ext node remote shard_id run sh)
