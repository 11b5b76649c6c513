-- ===== src/QueueServer/Tests.antt =====
-- A log with a gap in its ids.
use push_snode.Base.{
  ℕ, suc, ◌≡◌, ◌≤◌, refl, Bool, true, false, [], ◌∷◌, some, Result, ok, arith, take, drop, any,
  if◌then◌else◌, ◌==◌, string_eq,
}
use push_snode.Utilz.StrUtil
use push_snode.QueueTypes.{QItem}
use push_snode.QueueServer.{
  QueueTable, QueueRow, inserted, conflict, append_with_hash_checks, QueueServer, Reply, rows_after,
  to_items, read_with_last_offset, accept_into_queue,
}
use push_snode.QueueServer.Laws.{IsLog, read_with_last_offset_lem}
use push_snode.QueueServer.Acceptance.{IsAcceptance, accept_into_queue_lem}

abbrev gap : QueueServer
gap = record {
  reply_page_size = 2;
  next_id = 8;
  rows =
      record { id = 1; object = "a"; object_hash = "ha" }
      ∷ record { id = 5; object = "b"; object_hash = "hb" }
      ∷ record { id = 7; object = "c"; object_hash = "hc" }
      ∷ [];
}

gap-IsLog : IsLog gap
gap-IsLog = record {
  ascending = (omega arith, (omega arith, (omega arith, tt)));
  fresh = (omega arith, (omega arith, (omega arith, tt)));
  positive = omega arith;
}

page : (read_with_last_offset gap 1).last_offset ≡ 7
unfolding read_with_last_offset
page = refl

read_with_last_offset_lem_example :
    let reply : Reply = read_with_last_offset gap 1 in
    (reply.items ≡ to_items (take 2 (rows_after 1 gap.rows)))
    × (1 ≤ reply.last_offset)
    × (rows_after reply.last_offset gap.rows ≡ drop 2 (rows_after 1 gap.rows))
read_with_last_offset_lem_example = read_with_last_offset_lem gap 1 gap-IsLog (omega arith)

abbrev item : QItem
item = record { id = 0; object = "d"; object_hash = some "hd" }

-- A storage that counts what it is asked.
abbrev counting : QItem → ℕ → ℕ × Result Bool
counting it n = (suc n, ok true)

-- The hash is unique.
abbrev unique_hash : QueueTable
unique_hash rows hash =
    if any (λ (row : QueueRow). row.object_hash == hash) rows then conflict else inserted

accept_into_queue_lem_example :
    IsAcceptance item "hd" gap
      (1, ok true)
      inserted
      (accept_into_queue unique_hash (λ text. text) (some counting) item (gap, 0))
unfolding StrUtil.is_empty
accept_into_queue_lem_example =
    accept_into_queue_lem unique_hash (λ text. text) gap item (some counting) 0 gap-IsLog

abbrev again : QItem
again = record { id = 0; object = "b"; object_hash = some "hb" }

-- A row that is there is not added, and takes an id.
known :
    (accept_into_queue unique_hash (λ text. text) (some counting) again (gap, 0))
    ≡ ((record gap { next_id = 9 }, 1), ok false)
unfolding accept_into_queue append_with_hash_checks StrUtil.is_empty
known = refl
