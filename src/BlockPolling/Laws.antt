-- ===== src/BlockPolling/Laws.antt =====
-- A client fetches the whole of its view.
use push_snode.Base.{
  List-cases, ℕ, zero, suc, ◌+◌, ◌*◌, ◌≤◌, String, ◌≡◌, refl, sym, ap, ◌∙◌, subst, true, false, not,
  List, [], ◌∷◌, Option, some, Result, ok, Bool-cases, inl, inr, All, filter, take, drop, length,
  arith, string_eq,
}
use push_snode.Base.JsSet.{has, has-filter}
use push_snode.Base.JsMap.{get}
use push_snode.Ext.{Ext}
use push_snode.Utilz.StrUtil
use push_snode.BlockStorage.{block_hashes, get_bulk_block_hashes}
use push_snode.StorageNode.{Node}
use push_snode.StorageNode.History.{History, beginning, History-has}
use push_snode.SyncTable.{ViewRow, SyncDb}
use push_snode.StorageSyncClient.{StorageSyncClient, page_size, update_last_synced_page_number}
use push_snode.Views.{TieOrder, as_inserted, matching, hashes_of, filtered_blocks}
use push_snode.Views.Laws.{AreApart, view_has, has-filtered_blocks}
use push_snode.Views.Pages.{drop-drop, get_page}
use push_snode.BlockPolling.{
  Remote, ClientRun, Shared, array_answer, serve, fetch_missing, exhaust, store_page, process_page,
  client_round, process_client, start_client,
}
use push_snode.BlockPolling.Fetching.{IsServable, IsStored, History-trans, fetch_missing-IsStored}
use push_snode.BlockPolling.Rounds.{
  has-bulk, length-drop-le, has-take-drop, client_round-answer, view_has-has, exhaust-done,
}

module _ (ext : Ext) (node : Node) (ties : ℕ → TieOrder) (later : ℕ) (server : SyncDb)
    (view_name : String) (rows : List ViewRow) (found : get server.views view_name ≡ some rows)
    (named : StrUtil.is_empty view_name ≡ false) (served : All (IsServable ext node) rows)
    (shard_id : ℕ) (apart : AreApart (matching (shard_id ∷ []) rows)) where
  abbrev remote : Remote
  remote = serve ties later server

  -- After a page is stored, the next one is read, and each of its hashes is stored.
  store_page-IsStored :
      (hashes : List String) (run : ClientRun) (sh : Shared)
      → run.client.view_name ≡ view_name
      → run.done ≡ false
      → ((h : String) → has hashes h ≡ true → has (hashes_of rows) h ≡ true)
      → let (run', sh') = store_page ext node remote shard_id hashes run sh in
        (run'.client.view_name ≡ view_name)
        × (run'.done ≡ false)
        × (run'.last_synced_page ≡ suc run.last_synced_page)
        × History ext sh.db sh'.db
        × ((h : String) → has hashes h ≡ true → IsStored sh'.db h)
  unfolding store_page update_last_synced_page_number
  store_page-IsStored hashes run sh same going there =
      let missing : List String =
        filter (λ h. not (has (get_bulk_block_hashes sh.db hashes) h)) hashes in
      let (db', fetched, history, stored) =
        fetch_missing-IsStored ext node ties later server view_name rows found served shard_id
          missing sh.db in
      let fetched' : fetch_missing ext node remote shard_id run.client.view_name missing sh.db
          ≡ ok db' =
        ap (λ v. fetch_missing ext node remote shard_id v missing sh.db) same ∙ fetched in
      rw (store_page, fetched')
        (
          same,
          going,
          refl,
          history,
          λ h asked. elim (Bool-cases (has (block_hashes sh.db.blocks) h)) [
            | inl old ↦ History-has ext sh.db db' h history old
            | inr new ↦
                stored h
                  (ground (
                    arith,
                    has-filter (λ k. not (has (get_bulk_block_hashes sh.db hashes) k)) hashes h,
                    has-bulk sh.db hashes h,
                    new,
                    asked,
                  ))
                  (there h asked)
          ],
        )

  -- The rows that are left from page `suc k` on.
  abbrev left_from : ℕ → List ViewRow
  left_from k = drop (k * page_size) (filtered_blocks as_inserted (shard_id ∷ []) rows)

  client_round-page :
      (k : ℕ) (run : ClientRun) (sh : Shared)
      → run.client.view_name ≡ view_name
      → run.last_synced_page ≡ suc k
      → client_round ext node remote shard_id run sh
        ≡ process_page ext node remote shard_id (hashes_of (take page_size (left_from k))) run sh
  unfolding client_round serve
  client_round-page k run sh same page =
      let answer : remote.push_get_block_hash_from_view run.client.view_name shard_id
            run.last_synced_page page_size
          ≡ ok (some (hashes_of (take page_size (left_from k)))) =
        ap (λ v. remote.push_get_block_hash_from_view v shard_id run.last_synced_page page_size)
          same
        ∙ ap (λ p. remote.push_get_block_hash_from_view view_name shard_id p page_size) page
        ∙ ap (λ (r : SyncDb × Result (List String)). ok (array_answer r.1))
            (get_page ties view_name (shard_id ∷ []) page_size later rows apart named (omega arith)
              (omega arith) k server found) in
      client_round-answer ext node remote shard_id run sh
        (some (hashes_of (take page_size (left_from k)))) answer

  process_client-step :
      (fuel : ℕ) (run : ClientRun) (sh : Shared) (run' : ClientRun) (sh' : Shared)
      → run.done ≡ false
      → client_round ext node remote shard_id run sh ≡ (run', sh')
      → process_client ext node remote shard_id (suc fuel) run sh
        ≡ process_client ext node remote shard_id fuel run' sh'
  unfolding process_client
  process_client-step fuel run sh run' sh' going e = rw (process_client, going, e) refl

  process_client-left :
      (fuel : ℕ) (run : ClientRun) (sh : Shared)
      → run.done ≡ true
      → process_client ext node remote shard_id (suc fuel) run sh ≡ some (run, sh)
  unfolding process_client
  process_client-left fuel run sh left =
      let next : ClientRun × Shared = client_round ext node remote shard_id run sh in
      ap
        (λ b. elim b as (λ x. Option (ClientRun × Shared)) [
          | true ↦ some (run, sh)
          | false ↦ process_client ext node remote shard_id fuel next.0 next.1
        ])
        left

  in_rows :
      (h : String) (k : ℕ) → has (hashes_of (left_from k)) h ≡ true → has (hashes_of rows) h ≡ true
  in_rows h k q = view_has-has (shard_id ∷ []) rows h (
      sym (has-filtered_blocks as_inserted (shard_id ∷ []) rows h)
      ∙ ground (
        arith,
        q,
        has-take-drop (k * page_size) (filtered_blocks as_inserted (shard_id ∷ []) rows) h,
      ))

  -- The loop ends, and everything that was left is stored.
  process_client-from :
      (fuel k : ℕ) (run : ClientRun) (sh : Shared)
      → run.client.view_name ≡ view_name
      → run.done ≡ false
      → run.last_synced_page ≡ suc k
      → length (left_from k) + 2 ≤ fuel
      → (run' : ClientRun) × (sh' : Shared) × (process_client ext node remote shard_id fuel run sh
          ≡ some (run', sh'))
        × History ext sh.db sh'.db
        × ((h : String) → has (hashes_of (left_from k)) h ≡ true → IsStored sh'.db h)
  unfolding process_client
  process_client-from zero k run sh same going page enough = absurd (omega arith)
  process_client-from (suc zero) k run sh same going page enough = absurd (omega arith)
  process_client-from (suc (suc fuel)) k run sh same going page enough =
      elim (List-cases (left_from k)) [
        | inl empty ↦
            let last : client_round ext node remote shard_id run sh
                ≡ exhaust ext node remote shard_id run sh =
              client_round-page k run sh same page ∙ rw (empty, process_page) refl in
            let (left, kept) = exhaust-done ext node remote shard_id run sh in
            let (run', sh') = exhaust ext node remote shard_id run sh in
            (
              run',
              sh',
              process_client-step (suc fuel) run sh run' sh' going last
                  ∙ process_client-left fuel run' sh' left,
              subst (History ext sh.db) (sym kept) beginning,
              λ h q. unfold has in cc (rw empty at q),
            )
        | inr (row, rest, e) ↦
            let hashes : List String = hashes_of (take page_size (left_from k)) in
            let there : (h : String) → has hashes h ≡ true → has (hashes_of rows) h ≡ true =
              λ h q. in_rows h k (ground (arith, has-take-drop page_size (left_from k) h)) in
            let next : client_round ext node remote shard_id run sh
                ≡ store_page ext node remote shard_id hashes run sh =
              client_round-page k run sh same page ∙ rw (e, process_page) refl in
            let (same', going', page', history, stored) =
              store_page-IsStored hashes run sh same going there in
            let (run1, sh1) = store_page ext node remote shard_id hashes run sh in
            let rest_left : left_from (suc k) ≡ drop page_size (left_from k) =
              drop-drop (k * page_size) page_size (suc k * page_size)
                (filtered_blocks as_inserted (shard_id ∷ []) rows) (omega arith) in
            let fewer : length (left_from (suc k)) + 1 ≤ length (left_from k) =
              rw (rest_left, e) (omega (arith, length-drop-le 19 rest)) in
            let (run', sh', runs, history', stored') =
              process_client-from (suc fuel) (suc k) run1 sh1 same' going' (page' ∙ ap suc page)
                (omega arith) in
            (
              run',
              sh',
              process_client-step (suc fuel) run sh run1 sh1 going next ∙ runs,
              History-trans history history',
              λ h q. elim (Bool-cases (has hashes h)) [
                | inl here ↦ History-has ext sh1.db sh'.db h history' (stored h here)
                | inr later ↦ stored' h (
                    ap (λ z. has (hashes_of z) h) rest_left
                    ∙ ground (arith, has-take-drop page_size (left_from k) h, later, q))
              ],
            )
      ]

  -- A client that starts at the first page of a view ends its loop, after fewer rounds than the
  -- view has rows for the shard and two more. It has then stored every block of the view that has
  -- the shard, whatever was stored before, and done nothing to the blocks and the inboxes but
  -- handle blocks. The node at the other end offers the view under a name that is not empty; no
  -- two rows of the view that have the shard have the same time, so that each request gets them in
  -- one order; and each row of the view holds a block that passes the checks of the node and has
  -- the hash of the row.
  pub process_client_lem :
      (client : StorageSyncClient) (sh : Shared)
      → client.view_name ≡ view_name
      → client.last_synced_page_number ≡ 1
      → (run' : ClientRun) × (sh' : Shared) × (process_client ext node
            (serve ties later server)
            shard_id
            (length (filtered_blocks as_inserted (shard_id ∷ []) rows) + 2)
            (start_client client)
            sh
          ≡ some (run', sh'))
        × History ext sh.db sh'.db
        × ((h : String) → view_has (shard_id ∷ []) rows h ≡ true → IsStored sh'.db h)
  unfolding start_client
  process_client_lem client sh same first =
      let query : List ViewRow = filtered_blocks as_inserted (shard_id ∷ []) rows in
      let start : 0 * page_size ≡ 0 = omega arith in
      let whole : left_from 0 ≡ query = ap (λ n. drop n query) start in
      let enough : length (left_from 0) ≡ length query = ap length whole in
      let (run', sh', runs, history, stored) =
        process_client-from (length query + 2) 0 (start_client client) sh same refl first
          (omega (arith, enough)) in
      (
        run',
        sh',
        runs,
        history,
        λ h q. stored h (
            ap (λ z. has (hashes_of z) h) whole
            ∙ has-filtered_blocks as_inserted (shard_id ∷ []) rows h
            ∙ q),
      )
