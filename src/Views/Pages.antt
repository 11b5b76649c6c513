-- ===== src/Views/Pages.antt =====
-- The pages of a view, one after the other, are the result of its query.
use push_snode.Base.{
  ℕ, zero, suc, ◌+◌, ◌-◌, ◌*◌, ◌≤◌, ◌<◌, String, ◌≡◌, refl, sym, ap, subst, ◌∙◌, true, false, List,
  [], ◌∷◌, ◌++◌, some, Result, ok, throw, ok-injective, map, take, take_all, drop, length, nat_beq,
  ltb, arith, string_eq, nat_eq,
}
use push_snode.Base.JsMap.{get}
use push_snode.Base.Steps.{Step, continue, return, ◌>>=◌}
use push_snode.Utilz.StrUtil
use push_snode.SyncTable.{ViewRow, SyncDb, update_info_in_storage_sync_table}
use push_snode.Views.Laws.{AreApart, filtered_blocks-tie}
use push_snode.Views.{
  TieOrder, as_inserted, matching, filtered_blocks, hashes_of, note_page, touch_view, answer_page,
  select_from, get_paginated_block_hash_from_view,
}

abbrev none_of {ℓ} : {A : Type ℓ} → List A
none_of = []

take-nil {ℓ} : {A : Type ℓ} (n : ℕ) → take n (none_of {A = A}) ≡ []
take-nil zero = refl
take-nil (suc n) = refl

drop-nil {ℓ} : {A : Type ℓ} (n : ℕ) → drop n (none_of {A = A}) ≡ []
drop-nil zero = refl
drop-nil (suc n) = refl

take-drop_add {ℓ} :
    {A : Type ℓ} (m n k : ℕ) (xs : List A) → k ≡ m + n → take k xs ≡ take m xs ++ take n (drop m xs)
take-drop_add zero n k xs e = let same : k ≡ n = omega arith in rw same refl
take-drop_add (suc m) n k [] e = take-nil k ∙ sym (take-nil n)
take-drop_add (suc m) n zero (x ∷ xs) e = absurd (omega arith)
take-drop_add (suc m) n (suc k) (x ∷ xs) e = ap (λ z. x ∷ z) (take-drop_add m n k xs (omega arith))

pub drop-drop {ℓ} :
    {A : Type ℓ} (m n k : ℕ) (xs : List A) → k ≡ m + n → drop k xs ≡ drop n (drop m xs)
drop-drop zero n k xs e = let same : k ≡ n = omega arith in rw same refl
drop-drop (suc m) n k [] e = drop-nil k ∙ sym (drop-nil n)
drop-drop (suc m) n zero (x ∷ xs) e = absurd (omega arith)
drop-drop (suc m) n (suc k) (x ∷ xs) e = drop-drop m n k xs (omega arith)

map-append {ℓ κ} :
    {A : Type ℓ} {B : Type κ} (f : A → B) (xs ys : List A) → map f (xs ++ ys) ≡ map f xs ++ map f ys
map-append f [] ys = refl
map-append f (x ∷ xs) ys = ap (λ z. f x ∷ z) (map-append f xs ys)

continue-value {ℓ κ ι} :
    {S : Type ℓ} {A : Type κ} {B : Type ι} (r : S × Result A) (f : A → B) {v : A}
    → r.1 ≡ ok v
    → (continue r (λ a. return (f a))).1 ≡ ok (f v)
continue-value (s, ok a) f h = ap (λ z. ok (f z)) (ok-injective h)
continue-value (s, throw e) f h = cc

-- The request of a page; its answer changes no view.
note_page-views :
    (view_name : String) (page : ℕ) (hashes : List String) (db : SyncDb)
    → (note_page view_name page hashes db).views ≡ db.views
unfolding update_info_in_storage_sync_table
note_page-views view_name page [] db = refl
note_page-views view_name page (h ∷ hs) db = refl

module _ (ties : ℕ → TieOrder) (view_name : String) (shard_ids : List ℕ) (page_size later : ℕ) where
  -- The hashes of the pages that are read, from page `suc k` on; each request has its own order of the
  -- rows of one time.
  abbrev pub read_pages : ℕ → ℕ → Step SyncDb (List String)
  read_pages zero k = return []
  read_pages (suc rounds) k =
      get_paginated_block_hash_from_view (ties (suc k)) view_name shard_ids (suc k) page_size later
      >>= λ page. read_pages rounds (suc k) >>= λ pages. return (page ++ pages)

module _ (ties : ℕ → TieOrder) (view_name : String) (shard_ids : List ℕ) (page_size later : ℕ)
    (rows : List ViewRow) (apart : AreApart (matching shard_ids rows))
    (named : StrUtil.is_empty view_name ≡ false) (asked : 0 < length shard_ids)
    (size : 0 < page_size) where
  -- the hashes on page `suc k`
  abbrev pub page_at : ℕ → List String
  page_at k =
      hashes_of (take page_size (drop (k * page_size) (filtered_blocks as_inserted shard_ids rows)))

  -- The state after it is read; its views are those before.
  abbrev pub after_page : ℕ → SyncDb → SyncDb
  after_page k db = note_page view_name (suc k) (page_at k) (touch_view view_name later db)

  after_page-views : (k : ℕ) (db : SyncDb) → (after_page k db).views ≡ db.views
  unfolding update_info_in_storage_sync_table
  after_page-views k db =
      note_page-views view_name (suc k) (page_at k) (touch_view view_name later db)

  pub get_page :
      (k : ℕ) (db : SyncDb)
      → get db.views view_name ≡ some rows
      → get_paginated_block_hash_from_view
          (ties (suc k))
          view_name
          shard_ids
          (suc k)
          page_size
          later
          db
        ≡ (after_page k db, ok (page_at k))
  unfolding get_paginated_block_hash_from_view update_info_in_storage_sync_table
  get_page k db found =
      let some_shard : nat_beq (length shard_ids) 0 ≡ false = ground arith in
      let some_row : ltb 0 page_size ≡ true = ground arith in
      let first_page : ltb 0 (suc k) ≡ true = ground arith in
      let index : suc k - 1 ≡ k = omega arith in
      let read : select_from view_name (touch_view view_name later db) ≡ ok rows =
        rw (select_from, found) refl in
      rw (named, some_shard, some_row, first_page)
        (ap
            (answer_page (ties (suc k)) view_name shard_ids (suc k) page_size
              (touch_view view_name later db))
            read
          ∙ rw (index, filtered_blocks-tie (ties (suc k)) as_inserted shard_ids rows apart) refl)

  read_pages-from :
      (rounds k : ℕ) (db : SyncDb)
      → get db.views view_name ≡ some rows
      → (read_pages ties view_name shard_ids page_size later rounds k db).1
        ≡ ok (
            hashes_of (
              take
                (rounds * page_size)
                (drop (k * page_size) (filtered_blocks as_inserted shard_ids rows))))
  read_pages-from zero k db found =
      let none_read : 0 * page_size ≡ 0 = omega arith in rw none_read refl
  read_pages-from (suc rounds) k db found =
      let query : List ViewRow = filtered_blocks as_inserted shard_ids rows in
      let found' : get (after_page k db).views view_name ≡ some rows =
        subst (λ vs. get vs view_name ≡ some rows) (sym (after_page-views k db)) found in
      let more : suc rounds * page_size ≡ page_size + rounds * page_size = omega arith in
      let next : suc k * page_size ≡ k * page_size + page_size = omega arith in
      ap
        (λ (r : SyncDb × Result (List String)).
          (continue r (λ page.
            read_pages ties view_name shard_ids page_size later rounds (suc k) >>= λ pages.
            return (page ++ pages))).1)
        (get_page k db found)
      ∙ continue-value
          (read_pages ties view_name shard_ids page_size later rounds (suc k) (after_page k db))
          (λ pages. page_at k ++ pages) (read_pages-from rounds (suc k) (after_page k db) found')
      ∙ ap ok (
          ap (λ z. page_at k ++ hashes_of (take (rounds * page_size) z))
            (drop-drop (k * page_size) page_size (suc k * page_size) query next)
          ∙ sym (
              map-append (λ (row : ViewRow). row.object_hash)
                (take page_size (drop (k * page_size) query)) _)
          ∙ ap hashes_of (
              sym (
                take-drop_add page_size (rounds * page_size) (suc rounds * page_size)
                  (drop (k * page_size) query) more)))

  -- Reading pages 1, 2, ... of a view, up to a number of pages that is enough, gives each row of the
  -- query once, newest first: no page repeats or leaves out what another has. The view does not change
  -- meanwhile, and no two rows of the query have the same time; where they have, the database may order
  -- them for one page in one way and for the next in another.
  pub read_pages_lem :
      (rounds : ℕ) (db : SyncDb)
      → get db.views view_name ≡ some rows
      → length (filtered_blocks as_inserted shard_ids rows) ≤ rounds * page_size
      → (read_pages ties view_name shard_ids page_size later rounds 0 db).1
        ≡ ok (hashes_of (filtered_blocks as_inserted shard_ids rows))
  read_pages_lem rounds db found enough =
      let start : 0 * page_size ≡ 0 = omega arith in
      read_pages-from rounds 0 db found
      ∙ rw start (
          ap (λ z. ok (hashes_of z))
            (take_all (rounds * page_size) (filtered_blocks as_inserted shard_ids rows) enough))
