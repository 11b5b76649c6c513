-- ===== src/Views/Tests.antt =====
-- A view of three rows, two of them with the shard, on pages of one row.
use push_snode.Base.{
  ℕ, ◌%◌, nat_beq, ◌≡◌, refl, List, [], ◌∷◌, ok, arith, nat_eq, string_eq, pair_eq,
}
use push_snode.Base.JsMap.{get}
use push_snode.Base.JsSet.{has}
use push_snode.Utilz.StrUtil
use push_snode.SyncTable.{SyncDb, ViewRow}
use push_snode.Views.{
  TieOrder, as_inserted, matching, filtered_blocks, hashes_of, distinct, newest_first,
  insert_newest,
}
use push_snode.Views.Pages.{read_pages, read_pages_lem}

abbrev rows : List ViewRow
rows =
    record { object_hash = "01"; object_shards = 1 ∷ 2 ∷ []; object_raw = "07"; ts = 1700000000 }
    ∷ record { object_hash = "02"; object_shards = 3 ∷ []; object_raw = "08"; ts = 1700000001 }
    ∷ record { object_hash = "03"; object_shards = 1 ∷ []; object_raw = "09"; ts = 1700000002 }
    ∷ []

abbrev db : SyncDb
db = record { storage_sync_info = []; views = ("vw", rows) ∷ [] }

-- Odd pages are read in the order of insertion, even ones the other way round.
abbrev one_order : ℕ → TieOrder
one_order page = λ earlier later. nat_beq (page % 2) 0

newest_comes_first : hashes_of (filtered_blocks as_inserted (1 ∷ []) rows) ≡ "03" ∷ "01" ∷ []
unfolding filtered_blocks matching newest_first insert_newest distinct has
newest_comes_first = refl

read_pages_lem_example :
    (read_pages one_order "vw" (1 ∷ []) 1 5 2 0 db).1
    ≡ ok (hashes_of (filtered_blocks as_inserted (1 ∷ []) rows))
unfolding get StrUtil.is_empty filtered_blocks matching newest_first insert_newest distinct has
read_pages_lem_example =
    read_pages_lem one_order "vw" (1 ∷ []) 1 5 rows ((refl, tt), (tt, tt)) refl (omega arith)
      (omega arith) 2 db refl (omega arith)
