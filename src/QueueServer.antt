-- ===== src/QueueServer.antt =====
-- services/messaging-dset/queueServer.ts: an append-only log that other nodes read by pages. The
-- table has a serial id, which an insertion takes also when it then does nothing. Which insertions it takes
-- is a parameter: the only table of a queue that the repository creates, dset_queue_mblock
-- (services/messaging/BlockStorage.ts), lacks the column `object` of these statements, which fail on it.
pub mod Laws
pub mod Acceptance
mod Tests
use push_snode.Base.{
  ℕ, suc, ◌-◌, String, Bool, true, false, not, List, [], ◌∷◌, ◌++◌, Option, none, some, Result, ok,
  Error, throw, unique_violation, if◌then◌else◌, filter, take, ltb, min, any, ◌==◌, string_eq,
}
use push_snode.Base.Steps.{Step, continue}
use push_snode.Utilz.StrUtil
use push_snode.QueueTypes.{QItem}

-- A row of `dset_queue_${queueName}`.
pub record QueueRow : Type 0 where
  pub id : ℕ
  pub object : String
  pub object_hash : String

pub record QueueServer : Type 0 where
  pub reply_page_size : ℕ
  pub next_id : ℕ
  pub rows : List QueueRow

-- What the database makes of an insertion: a row, a conflict with a unique column, or an error, as for a
-- column that is not there, before an id is taken.
pub data Insertion : Type 0 where
  inserted conflict : Insertion
  failed : Error → Insertion

-- The rows and the hash of an insertion tell what the table makes of it.
abbrev pub QueueTable : Type 0
QueueTable = List QueueRow → String → Insertion

-- The row is added at the end, with the next id.
abbrev pub append_row : QueueServer → String → String → QueueServer
append_row q cmd cmd_hash =
    let row : QueueRow = record { id = q.next_id; object = cmd; object_hash = cmd_hash } in
    record q { next_id = suc q.next_id; rows = q.rows ++ row ∷ [] }

-- `ON CONFLICT DO NOTHING`: true, if a row is affected.
unfoldable pub append_with_hash_checks :
    QueueTable → String → String → QueueServer → QueueServer × Result Bool
append_with_hash_checks table cmd cmd_hash q = elim (table q.rows cmd_hash) [
  | inserted ↦ (append_row q cmd cmd_hash, ok true)
  | conflict ↦ (record q { next_id = suc q.next_id }, ok false)
  | failed e ↦ (q, throw e)
]

-- `ObjectHasher.hashToSha256` is the first argument.
unfoldable pub append_direct :
    QueueTable → (String → String) → String → QueueServer → QueueServer × Result Bool
append_direct table hash_to_sha256 cmd q = elim (table q.rows (hash_to_sha256 cmd)) [
  | inserted ↦ (append_row q cmd (hash_to_sha256 cmd), ok true)
  | conflict ↦ (record q { next_id = suc q.next_id }, throw unique_violation)
  | failed e ↦ (q, throw e)
]

-- `WHERE id > $1`
abbrev pub rows_after : ℕ → List QueueRow → List QueueRow
rows_after offset rows = filter (λ (row : QueueRow). ltb offset row.id) rows

-- `min(id)`, null on no rows
abbrev min_id : List QueueRow → Option ℕ
min_id [] = none
min_id (row ∷ rows) = elim (min_id rows) [ none ↦ some row.id | some id ↦ some (min row.id id) ]

unfoldable pub get_first_row_id_after : QueueServer → ℕ → Option ℕ
get_first_row_id_after q offset = min_id (rows_after offset q.rows)

abbrev pub to_item : QueueRow → QItem
to_item row = record { id = row.id; object = row.object; object_hash = some row.object_hash }

abbrev pub to_items : List QueueRow → List QItem
to_items [] = []
to_items (row ∷ rows) = to_item row ∷ to_items rows

-- `ORDER BY id ASC` is the order of the rows.
unfoldable pub read_items : QueueServer → ℕ → List QItem
read_items q offset = to_items (take q.reply_page_size (rows_after offset q.rows))

pub record Reply : Type 0 where
  pub items : List QItem
  pub last_offset : ℕ

-- `items[items.length - 1].id`, or the default on no items
pub last_id : ℕ → List QItem → ℕ
last_id default [] = default
last_id default (item ∷ items) = last_id item.id items

-- With no items, a gap in the ids is skipped.
abbrev next_offset : ℕ → Option ℕ → ℕ
next_offset first_offset none = first_offset
next_offset first_offset (some next_id) = next_id - 1

reply_for : QueueServer → ℕ → List QItem → Reply
unfolding last_id get_first_row_id_after
reply_for q first_offset [] = record {
  items = [];
  last_offset = next_offset first_offset (get_first_row_id_after q first_offset);
}
reply_for q first_offset (item ∷ items) = record {
  items = item ∷ items;
  last_offset = last_id item.id items;
}

unfoldable pub read_with_last_offset : QueueServer → ℕ → Reply
unfolding reply_for read_items
read_with_last_offset q first_offset = reply_for q first_offset (read_items q first_offset)

-- An item without a hash is hashed here.
append_item : QueueTable → (String → String) → QItem → QueueServer → QueueServer × Result Bool
unfolding append_with_hash_checks append_direct
append_item table hash_to_sha256 item q = elim item.object_hash [
  | none ↦ append_direct table hash_to_sha256 item.object q
  | some hash ↦
      if StrUtil.is_empty hash
      then append_direct table hash_to_sha256 item.object q
      else append_with_hash_checks table item.object hash q
]

-- The state of the consumer `S`, beside the queue.
module _ {S : Type 0} (table : QueueTable) (hash_to_sha256 : String → String) where
  abbrev with_storage : S → QueueServer × Result Bool → (QueueServer × S) × Result Bool
  with_storage s (q, success) = ((q, s), success)

  -- The storage has answered; an item that it has already is not appended.
  after_storage : QItem → QueueServer → S × Result Bool → (QueueServer × S) × Result Bool
  unfolding append_item
  after_storage item q (s, throw e) = ((q, s), throw e)
  after_storage item q (s, ok false) = ((q, s), ok false)
  after_storage item q (s, ok true) = with_storage s (append_item table hash_to_sha256 item q)

  unfoldable pub accept_into_queue :
      Option (QItem → S → S × Result Bool) → QItem → Step (QueueServer × S) Bool
  unfolding after_storage append_item
  accept_into_queue none item (q, s) = with_storage s (append_item table hash_to_sha256 item q)
  accept_into_queue (some storage_accept) item (q, s) = after_storage item q (storage_accept item s)
