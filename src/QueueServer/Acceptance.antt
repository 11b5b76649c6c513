-- ===== src/QueueServer/Acceptance.antt =====
-- When the queue takes an item, and what it answers.
use push_snode.Utilz.StrUtil
use push_snode.Base.{
  All, All-append, string_eq, ℕ, suc, ◌<◌, String, ◌≡◌, refl, sym, subst, Bool, true, false, List,
  [], ◌∷◌, ◌++◌, Option, none, some, Result, ok, throw, unique_violation, not, if◌then◌else◌, arith,
  Bool-cases, inl, inr,
}
use push_snode.QueueTypes.{QItem}
use push_snode.QueueServer.{
  Insertion, inserted, conflict, failed, QueueTable, append_row, append_item, after_storage,
  accept_into_queue, QueueRow, QueueServer, append_with_hash_checks, append_direct,
}
use push_snode.QueueServer.Laws.{IsAscending, IsLog}

append-IsAscending :
    (low : ℕ) (rows : List QueueRow) (row : QueueRow)
    → IsAscending low rows
    → All (λ (r : QueueRow). r.id < row.id) rows
    → low < row.id
    → IsAscending low (rows ++ row ∷ [])
append-IsAscending low [] row h a lt = (lt, tt)
append-IsAscending low (r ∷ rows) row (l, h) (b, a) lt = (l, append-IsAscending r.id rows row h a b)

All-later :
    (rows : List QueueRow) (n : ℕ)
    → All (λ (r : QueueRow). r.id < n) rows
    → All (λ (r : QueueRow). r.id < suc n) rows
All-later [] n h = tt
All-later (r ∷ rows) n (l, h) = (omega arith, All-later rows n h)

append_row-IsLog : (q : QueueServer) (cmd hash : String) → IsLog q → IsLog (append_row q cmd hash)
append_row-IsLog q cmd hash log =
    let row : QueueRow = record { id = q.next_id; object = cmd; object_hash = hash } in
    record {
      ascending = append-IsAscending 0 q.rows row log.ascending log.fresh log.positive;
      fresh =
          All-append (λ (r : QueueRow). r.id < suc q.next_id) q.rows (row ∷ [])
            (All-later q.rows q.next_id log.fresh) ((omega arith, tt));
      positive = omega arith;
    }

skip-IsLog : (q : QueueServer) → IsLog q → IsLog (record q { next_id = suc q.next_id })
skip-IsLog q log = record {
  ascending = log.ascending;
  fresh = All-later q.rows q.next_id log.fresh;
  positive = omega arith;
}

-- The hash that an item comes with, or the one that is computed from it.
abbrev pub given_or : Option String → String → String
given_or none computed = computed
given_or (some hash) computed = if StrUtil.is_empty hash then computed else hash

abbrev pub is_given : Option String → Bool
is_given none = false
is_given (some hash) = not (StrUtil.is_empty hash)

abbrev pub item_hash : (String → String) → QItem → String
item_hash hash_to_sha256 item = given_or item.object_hash (hash_to_sha256 item.object)

-- What the consumer answers, which may be missing.
abbrev pub asked : {S : Type 0} → Option (QItem → S → S × Result Bool) → QItem → S → S × Result Bool
asked none item s = (s, ok true)
asked (some storage_accept) item s = storage_accept item s

-- The answer of the queue, by that of the consumer and what the table makes of the insertion.
abbrev pub answer_to : Result Bool → Insertion → Bool → Result Bool
answer_to (throw e) outcome with_hash = throw e
answer_to (ok false) outcome with_hash = ok false
answer_to (ok true) inserted with_hash = ok true
answer_to (ok true) conflict with_hash = if with_hash then ok false else throw unique_violation
answer_to (ok true) (failed e) with_hash = throw e

abbrev pub is_true : Result Bool → Bool
is_true (ok answer) = answer
is_true (throw e) = false

abbrev pub new_row : QueueServer → QItem → String → QueueRow
new_row q item hash = record { id = q.next_id; object = item.object; object_hash = hash }

-- The queue and the answer, by the answer of the consumer and the outcome of the insertion: a row is added
-- at the end exactly when the answer is true.
abbrev pub IsAcceptance :
    {S : Type 0}
    → QItem
    → String
    → QueueServer
    → S × Result Bool
    → Insertion
    → (QueueServer × S) × Result Bool
    → Type 0
IsAcceptance item hash q consumer outcome after =
    IsLog after.0.0
    × (after.1 ≡ answer_to consumer.1 outcome (is_given item.object_hash))
    × (after.0.0.rows ≡ (if is_true after.1 then q.rows ++ new_row q item hash ∷ [] else q.rows))
    × (after.0.1 ≡ consumer.0)

module _ (table : QueueTable) (hash_to_sha256 : String → String) (q : QueueServer) where
  abbrev after_insertion : String → String → Bool → Insertion → QueueServer × Result Bool
  after_insertion cmd hash with_hash inserted = (append_row q cmd hash, ok true)
  after_insertion cmd hash with_hash conflict =
      (record q { next_id = suc q.next_id }, if with_hash then ok false else throw unique_violation)
  after_insertion cmd hash with_hash (failed e) = (q, throw e)

  append_direct-outcome :
      (cmd : String) (outcome : Insertion)
      → table q.rows (hash_to_sha256 cmd) ≡ outcome
      → append_direct table hash_to_sha256 cmd q
        ≡ after_insertion cmd (hash_to_sha256 cmd) false outcome
  unfolding append_direct
  append_direct-outcome cmd inserted e = rw (append_direct, e) refl
  append_direct-outcome cmd conflict e = rw (append_direct, e) refl
  append_direct-outcome cmd (failed x) e = rw (append_direct, e) refl

  append_with_hash_checks-outcome :
      (cmd hash : String) (outcome : Insertion)
      → table q.rows hash ≡ outcome
      → append_with_hash_checks table cmd hash q ≡ after_insertion cmd hash true outcome
  unfolding append_with_hash_checks
  append_with_hash_checks-outcome cmd hash inserted e = rw (append_with_hash_checks, e) refl
  append_with_hash_checks-outcome cmd hash conflict e = rw (append_with_hash_checks, e) refl
  append_with_hash_checks-outcome cmd hash (failed x) e = rw (append_with_hash_checks, e) refl

  append_item-outcome :
      (id : ℕ) (object : String) (given : Option String)
      → let hash : String = given_or given (hash_to_sha256 object) in
        append_item table hash_to_sha256
          (record { id = id; object = object; object_hash = given })
          q
        ≡ after_insertion object hash (is_given given) (table q.rows hash)
  unfolding append_item
  append_item-outcome id object none =
      append_direct-outcome object (table q.rows (hash_to_sha256 object)) refl
  append_item-outcome id object (some hash) = elim (Bool-cases (StrUtil.is_empty hash)) [
    | inl a ↦ rw a (append_direct-outcome object (table q.rows (hash_to_sha256 object)) refl)
    | inr a ↦ rw a (append_with_hash_checks-outcome object hash (table q.rows hash) refl)
  ]

module _ (table : QueueTable) (hash_to_sha256 : String → String) (q : QueueServer)
    (item : QItem) where
  insertion-IsAcceptance :
      {S : Type 0} (s : S) (outcome : Insertion)
      → IsLog q
      → let hash : String = item_hash hash_to_sha256 item in
        let r : QueueServer × Result Bool =
          after_insertion table hash_to_sha256 q item.object hash
            (is_given item.object_hash)
            outcome in
        IsAcceptance item hash q (s, ok true) outcome ((r.0, s), r.1)
  insertion-IsAcceptance s inserted log =
      (append_row-IsLog q item.object (item_hash hash_to_sha256 item) log, refl, refl, refl)
  insertion-IsAcceptance s (failed e) log = (log, refl, refl, refl)
  insertion-IsAcceptance s conflict log = elim (Bool-cases (is_given item.object_hash)) [
    | inl b ↦ rw b ((skip-IsLog q log, refl, refl, refl))
    | inr b ↦ rw b ((skip-IsLog q log, refl, refl, refl))
  ]

  after_storage-IsAcceptance :
      {S : Type 0} (consumer : S × Result Bool)
      → IsLog q
      → IsAcceptance item
          (item_hash hash_to_sha256 item)
          q
          consumer
          (table q.rows (item_hash hash_to_sha256 item))
          (after_storage table hash_to_sha256 item q consumer)
  unfolding after_storage
  after_storage-IsAcceptance (s, throw e) log = (log, refl, refl, refl)
  after_storage-IsAcceptance (s, ok false) log = (log, refl, refl, refl)
  after_storage-IsAcceptance (s, ok true) log =
      let outcome : Insertion = table q.rows (item_hash hash_to_sha256 item) in
      subst
        (λ (r : QueueServer × Result Bool).
          IsAcceptance item (item_hash hash_to_sha256 item) q (s, ok true) outcome ((r.0, s), r.1))
        (sym (append_item-outcome table hash_to_sha256 q item.id item.object item.object_hash))
        (insertion-IsAcceptance s outcome log)

  -- An item is accepted exactly when the consumer answers true, or there is none, and the table takes its
  -- row: then the answer is true and the row, with the hash that the item comes with or else the computed
  -- one and with the next id, is the last of the log. Otherwise the log has the rows it had, and the answer
  -- is that of the consumer, false for a conflict of an item that comes with its hash, or an error. In each
  -- case the log stays ordered by its ids.
  pub accept_into_queue_lem :
      {S : Type 0} (storage : Option (QItem → S → S × Result Bool)) (s : S)
      → IsLog q
      → IsAcceptance item
          (item_hash hash_to_sha256 item)
          q
          (asked storage item s)
          (table q.rows (item_hash hash_to_sha256 item))
          (accept_into_queue table hash_to_sha256 storage item (q, s))
  unfolding accept_into_queue after_storage
  accept_into_queue_lem none s log = after_storage-IsAcceptance (s, ok true) log
  accept_into_queue_lem (some storage) s log = after_storage-IsAcceptance (storage item s) log
