-- ===== src/BlockPolling.antt =====
-- services/block/blockPolling.ts: the node fetches the blocks of its new shards from other nodes.
pub mod Laws
pub mod Fetching
pub mod Rounds
pub mod Clients
mod Tests
use push_snode.Base.{
  ℕ, zero, suc, ◌+◌, String, Bool, true, false, not, List, [], ◌∷◌, Option, none, some, Result, ok,
  throw, if◌then◌else◌, filter, string_eq,
}
use push_snode.Base.JsSet.{has}
use push_snode.Base.Steps.{Step, lift, ◌>>=◌}
use push_snode.Ext.{Ext}
use push_snode.Db.{Db}
use push_snode.Utilz.BitUtil.Hex.{base16_to_bytes}
use push_snode.BlockStorage.{get_bulk_block_hashes}
use push_snode.StorageNode.{Node, handle_block}
use push_snode.SyncTable.{SyncDb}
use push_snode.Views.{
  TieOrder, get_paginated_block_hash_from_view, get_block_info_from_view_based_on_block_hashs,
}
use push_snode.StorageSyncClient.{
  StorageSyncClient, page_size, update_last_synced_page_number, update_already_synced_shards,
}

-- What the node at the url of a client answers: to a view, a shard, a page and its size with hashes,
-- which is `none` where the answer is no array, and to a view and hashes with blocks.
pub record Remote : Type 0 where
  pub push_get_block_hash_from_view : String → ℕ → ℕ → ℕ → Result (Option (List String))
  pub push_get_blocks_from_hashes : String → List String → Result (List String)

-- `Array.isArray(res.data.result) ? res.data.result : []`
abbrev pub array_or_empty : Option (List String) → List String
array_or_empty none = []
array_or_empty (some hashes) = hashes

-- `clientPaginationState`. The loop of a client that is done is left: it is exhausted, or was broken off.
pub record ClientRun : Type 0 where
  pub client : StorageSyncClient
  pub last_synced_page : ℕ
  pub done : Bool

-- What the clients share.
pub record Shared : Type 0 where
  pub sync : SyncDb
  pub db : Db

-- What `execute` of push_getBlockHashFromView answers: an `Error` for an error, which is no array.
abbrev pub array_answer : Result (List String) → Option (List String)
array_answer (ok hashes) = some hashes
array_answer (throw e) = none

-- A node that offers views, as push_getBlockHashFromView.ts and push_getBlocksFromHashes.ts answer. The
-- rows that a request notes are read by none of them.
unfoldable pub serve : (ℕ → TieOrder) → ℕ → SyncDb → Remote
serve ties later server = record {
  push_get_block_hash_from_view = λ view_name shard_id page size. ok (
      array_answer
        (get_paginated_block_hash_from_view (ties page) view_name (shard_id ∷ []) page size later
          server).1);
  push_get_blocks_from_hashes =
      λ table hashes. get_block_info_from_view_based_on_block_hashs table hashes server;
}

module _ (ext : Ext) (node : Node) where
  -- An error is logged.
  unfoldable pub process_block : String → Db → Db
  process_block block db =
      ((lift (base16_to_bytes block) >>= λ block_bytes.
      lift (ext.deserialize_block block_bytes) >>= λ parsed_block.
      handle_block ext node parsed_block block_bytes none)
        db).0

  -- The blocks of a page, one after the other.
  unfoldable pub process_blocks : List String → Db → Db
  unfolding process_block
  process_blocks [] db = db
  process_blocks (block ∷ blocks) db = process_blocks blocks (process_block block db)

  module _ (remote : Remote) (shard_id : ℕ) where
    -- Nothing is asked for where nothing is missing.
    unfoldable pub fetch_missing : String → List String → Db → Result Db
    unfolding process_blocks
    fetch_missing view_name [] db = ok db
    fetch_missing view_name (hash ∷ hashes) db =
        elim (remote.push_get_blocks_from_hashes view_name (hash ∷ hashes)) [
          | throw e ↦ throw e
          | ok full_blocks ↦ ok (process_blocks full_blocks db)
        ]

    -- The branch of a page without hashes. `exhausted` is set first; an error is logged.
    unfoldable pub exhaust : ClientRun → Shared → ClientRun × Shared
    exhaust run sh =
        let ((client, sync), r) = update_already_synced_shards shard_id run.client sh.sync in
        elim r [
          | throw e ↦ (record run { client = client; done = true }, record sh { sync = sync })
          | ok u ↦
              let (client', sync') =
                update_last_synced_page_number client.last_synced_page_number client sync in
              (record run { client = client'; done = true }, record sh { sync = sync' })
        ]

    -- The branch of a page with hashes.
    unfoldable pub store_page : List String → ClientRun → Shared → ClientRun × Shared
    unfolding fetch_missing
    store_page block_hashes run sh =
        let block_hashes_res = get_bulk_block_hashes sh.db block_hashes in
        let missing = filter (λ hash. not (has block_hashes_res hash)) block_hashes in
        elim (fetch_missing run.client.view_name missing sh.db) [
          | throw e ↦ (record run { done = true }, sh)
          | ok db ↦
              let page = suc run.last_synced_page in
              let (client, sync) = update_last_synced_page_number page run.client sh.sync in
              (
                record run { client = client; last_synced_page = page },
                record { sync = sync; db = db },
              )
        ]

    unfoldable pub process_page : List String → ClientRun → Shared → ClientRun × Shared
    unfolding exhaust store_page
    process_page [] run sh = exhaust run sh
    process_page (hash ∷ hashes) run sh = store_page (hash ∷ hashes) run sh

    -- The body of the loop of a client.
    unfoldable pub client_round : ClientRun → Shared → ClientRun × Shared
    unfolding process_page
    client_round run sh =
        elim (remote.push_get_block_hash_from_view run.client.view_name shard_id
          run.last_synced_page page_size) [
            | throw e ↦ (record run { done = true }, sh)
            | ok hashes ↦ process_page (array_or_empty hashes) run sh
          ]

    -- `while (!exhausted)`. There is no result where the fuel does not last.
    unfoldable pub process_client : ℕ → ClientRun → Shared → Option (ClientRun × Shared)
    unfolding client_round
    process_client zero run sh = none
    process_client (suc fuel) run sh = elim run.done [
      | true ↦ some (run, sh)
      | false ↦ let (run', sh') = client_round run sh in process_client fuel run' sh'
    ]

-- `clientPaginationState` of a client at the start
unfoldable pub start_client : StorageSyncClient → ClientRun
start_client client = record {
  client = client;
  last_synced_page = client.last_synced_page_number;
  done = false;
}
