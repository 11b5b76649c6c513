-- ===== src/DbHelper/Lookup/Laws.antt =====
-- What is put into an inbox is found.
use push_snode.Base.{
  ◌≡◌, refl, ap, ◌∙◌, subst, Bool, Bool-cases, true, false, List, [], ◌∷◌, ◌++◌, some, inl, inr,
  All, filter, filter-append, arith, ◌==◌, ==_iff, ==_self, nat_eq, string_eq, pair_eq,
}
use push_snode.Base.JsSet.{has, IsDistinct}
use push_snode.Db.{InboxRow}
use push_snode.DbHelper.{inbox_key, inbox_keys, update_payload, upsert_inbox}
use push_snode.SyncTable.{one_row}
use push_snode.DbHelper.Lookup.{is_value, payloads_of, find_value_in_storage_table}

module _ (input : InboxRow) where
  abbrev found : InboxRow → Bool
  found = is_value input.skey input.namespace input.namespace_id

  -- No other shard has a row that the look-up of the row finds.
  abbrev pub InOneShard : List InboxRow → Type 0
  InOneShard rows =
      All (λ (row : InboxRow). found row ≡ true → row.namespace_shard_id ≡ input.namespace_shard_id)
        rows

  found-key :
      (row : InboxRow)
      → (found row ≡ true → row.namespace_shard_id ≡ input.namespace_shard_id)
      → found row ≡ (inbox_key row == inbox_key input)
  found-key row h = elim (Bool-cases (found row)) [
    | inl q ↦ let same = h q in ground (arith, q, same)
    | inr q ↦ ground (arith, q)
  ]

  -- Without its key there is nothing to find.
  found-none :
      (rows : List InboxRow)
      → InOneShard rows
      → has (inbox_keys rows) (inbox_key input) ≡ false
      → filter found rows ≡ []
  unfolding inbox_keys has
  found-none [] h k = refl
  found-none (row ∷ rows) (here, rest) k =
      ground (arith, k, found-key row here, found-none rows rest)

  update_payload-none :
      (rows : List InboxRow)
      → has (inbox_keys rows) (inbox_key input) ≡ false
      → update_payload input rows ≡ rows
  unfolding inbox_keys has update_payload
  update_payload-none [] k = refl
  update_payload-none (row ∷ rows) k = ground (arith, k, update_payload-none rows)

  -- With it, the row of the key has the new payload.
  found-update_payload :
      (rows : List InboxRow)
      → InOneShard rows
      → IsDistinct (inbox_keys rows)
      → has (inbox_keys rows) (inbox_key input) ≡ true
      → payloads_of (filter found (update_payload input rows)) ≡ input.payload ∷ []
  unfolding inbox_keys has update_payload
  found-update_payload [] h d k = cc
  found-update_payload (row ∷ rows) (here, rest) (fresh, d) k =
      elim (Bool-cases (inbox_key row == inbox_key input)) [
        | inl same ↦
            let key : inbox_key row ≡ inbox_key input =
              (==_iff (inbox_key row) (inbox_key input)).0 same in
            let others : has (inbox_keys rows) (inbox_key input) ≡ false =
              subst (λ z. has (inbox_keys rows) z ≡ false) key fresh in
            let it : found row ≡ true = found-key row here ∙ same in
            rw (same, it, update_payload-none rows others, found-none rows rest others) refl
        | inr other ↦
            let no : found row ≡ false = found-key row here ∙ other in
            rw (other, no) (found-update_payload rows rest d (ground (arith, k, other)))
      ]

  -- The payload that is put into an inbox is the one that is found there, whether the key is new
  -- or not. The keys of the rows before are distinct, and the inbox has no row of the hash in
  -- another shard.
  pub find_value_in_storage_table-upsert_inbox :
      (rows : List InboxRow)
      → InOneShard rows
      → IsDistinct (inbox_keys rows)
      → find_value_in_storage_table input.skey input.namespace input.namespace_id
          (upsert_inbox input rows)
        ≡ some input.payload
  unfolding find_value_in_storage_table upsert_inbox
  find_value_in_storage_table-upsert_inbox rows h d =
      elim (Bool-cases (has (inbox_keys rows) (inbox_key input))) [
        | inl old ↦ rw old (ap one_row (found-update_payload rows h d old))
        | inr new ↦
            let it : found input ≡ true =
              ground
                (arith, ==_self input.skey, ==_self input.namespace, ==_self input.namespace_id) in
            let only : filter found (rows ++ input ∷ []) ≡ input ∷ [] =
              filter-append found rows (input ∷ []) ∙ rw (found-none rows h new, it) refl in
            rw new (ap (λ z. one_row (payloads_of z)) only)
      ]
