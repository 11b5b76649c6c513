-- ===== src/QueueServer/Laws.antt =====
-- What a reader of the log gets: the rows after its offset, in the order of their ids.
use push_snode.Base.{
  All, string_eq, ℕ, zero, suc, ◌≤◌, ◌<◌, ◌≡◌, refl, ap, sym, ◌∙◌, subst, List, [], ◌∷◌, arith,
  take, drop, ltb, Bool-cases, inl, inr,
}
use push_snode.QueueServer.{
  QueueRow, QueueServer, Reply, rows_after, to_items, last_id, reply_for, get_first_row_id_after,
  read_items, read_with_last_offset,
}

-- The ids grow, from above a bound.
abbrev pub IsAscending : ℕ → List QueueRow → Type 0
IsAscending low [] = Unit
IsAscending low (row ∷ rows) = (low < row.id) × IsAscending row.id rows

-- The log is ordered by its ids, and the next id is above all of them.
pub record IsLog (q : QueueServer) : Type 0 where
  pub ascending : IsAscending 0 q.rows
  pub fresh : All (λ (row : QueueRow). row.id < q.next_id) q.rows
  pub positive : 0 < q.next_id

abbrev pub row_last : ℕ → List QueueRow → ℕ
row_last low rows = last_id low (to_items rows)

rows_after-low :
    (low offset : ℕ) (rows : List QueueRow)
    → IsAscending low rows
    → offset ≤ low
    → rows_after offset rows ≡ rows
rows_after-low low offset [] h le = refl
rows_after-low low offset (row ∷ rows) (lt, h) le =
    let tail : rows_after offset rows ≡ rows = rows_after-low row.id offset rows h (omega arith) in
    ground (arith, tail)

rows_after-IsAscending :
    (low offset : ℕ) (rows : List QueueRow)
    → IsAscending low rows
    → IsAscending offset (rows_after offset rows)
rows_after-IsAscending low offset [] h = tt
rows_after-IsAscending low offset (row ∷ rows) (lt, h) = elim (Bool-cases (ltb offset row.id)) [
  | inl above ↦
      let le : offset < row.id = ground arith in
      rw above (
        (
          le,
          subst (IsAscending row.id) (sym (rows_after-low row.id offset rows h (omega arith))) h,
        ))
  | inr below ↦ rw below (rows_after-IsAscending row.id offset rows h)
]

row_last-le : (low : ℕ) (rows : List QueueRow) → IsAscending low rows → low ≤ row_last low rows
unfolding last_id
row_last-le low [] h = omega arith
row_last-le low (row ∷ rows) (lt, h) = omega (arith, row_last-le row.id rows h)

take-IsAscending :
    (n low : ℕ) (rows : List QueueRow) → IsAscending low rows → IsAscending low (take n rows)
take-IsAscending zero low rows h = tt
take-IsAscending (suc n) low [] h = tt
take-IsAscending (suc n) low (row ∷ rows) (lt, h) = (lt, take-IsAscending n row.id rows h)

-- What stands after the last row of a page is the rest.
rows_after-page :
    (n low : ℕ) (rows : List QueueRow)
    → IsAscending low rows
    → rows_after (row_last low (take n rows)) rows ≡ drop n rows
unfolding last_id
rows_after-page zero low rows h = rows_after-low low low rows h (omega arith)
rows_after-page (suc n) low [] h = refl
rows_after-page (suc n) low (row ∷ rows) (lt, h) =
    let le : row.id ≤ row_last row.id (take n rows) =
      row_last-le row.id (take n rows) (take-IsAscending n row.id rows h) in
    let tail : rows_after (row_last row.id (take n rows)) rows ≡ drop n rows =
      rows_after-page n row.id rows h in
    ground (arith, le, tail)

-- Rows after a later offset are among those after an earlier one.
rows_after-twice :
    (a b : ℕ) (rows : List QueueRow) → a ≤ b → rows_after b (rows_after a rows) ≡ rows_after b rows
rows_after-twice a b [] le = refl
rows_after-twice a b (row ∷ rows) le = ground (arith, rows_after-twice a b rows le)

-- A reply has the first rows after the offset, one page of them. The offset of the reply is not
-- below that of the request, and after it stand exactly the rows that the reply left out.
pub read_with_last_offset_lem :
    (q : QueueServer) (offset : ℕ)
    → IsLog q
    → 0 < q.reply_page_size
    → let reply : Reply = read_with_last_offset q offset in
      (reply.items ≡ to_items (take q.reply_page_size (rows_after offset q.rows)))
      × (offset ≤ reply.last_offset)
      × (rows_after reply.last_offset q.rows ≡ drop q.reply_page_size (rows_after offset q.rows))
unfolding read_with_last_offset reply_for read_items get_first_row_id_after last_id
read_with_last_offset_lem q offset log positive =
    split q.reply_page_size (rows_after offset q.rows) refl refl
  where
    ordered : IsAscending offset (rows_after offset q.rows)
    ordered = rows_after-IsAscending 0 offset q.rows log.ascending

    split :
        (n : ℕ) (xs : List QueueRow)
        → q.reply_page_size ≡ n
        → rows_after offset q.rows ≡ xs
        → let reply : Reply = read_with_last_offset q offset in
          (reply.items ≡ to_items (take q.reply_page_size (rows_after offset q.rows)))
          × (offset ≤ reply.last_offset)
          × (rows_after reply.last_offset q.rows
              ≡ drop q.reply_page_size (rows_after offset q.rows))
    split zero xs p e = absurd (omega arith)
    split (suc n) [] p e = rw (p, e) ((refl, rw e (omega arith), rw e e))
    split (suc n) (x ∷ xs) p e =
        let asc : IsAscending offset (x ∷ xs) = subst (IsAscending offset) e ordered in
        let last : ℕ = row_last x.id (take n xs) in
        let le : offset ≤ last =
          row_last-le offset (take (suc n) (x ∷ xs))
            (take-IsAscending (suc n) offset (x ∷ xs) asc) in
        let rest : rows_after last q.rows ≡ drop n xs =
          sym (rows_after-twice offset last q.rows le)
          ∙ ap (rows_after last) e
          ∙ rows_after-page (suc n) offset (x ∷ xs) asc in
        rw (p, e) ((refl, le, rest))
