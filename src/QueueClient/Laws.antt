-- ===== src/QueueClient/Laws.antt =====
-- What a poll does to the offset, and what the consumer of an honest queue is given.
use push_snode.Base.{
  nat_beq, ◌⊎◌, ℕ, zero, suc, ◌-◌, ◌≤◌, ◌<◌, ◌≡◌, refl, ap, sym, ◌∙◌, Bool, true, false, List, [],
  ◌∷◌, ◌++◌, Option, none, some, Result, arith, length, take, drop, leb, Bool-cases, inl, inr,
}
use push_snode.QueueTypes.{QItem}
use push_snode.QueueServer.{
  QueueRow, QueueServer, Reply, rows_after, to_item, to_items, read_with_last_offset,
}
use push_snode.QueueServer.Laws.{IsLog, read_with_last_offset_lem}
use push_snode.QueueClient.{
  DsetClient, Poll, accept_item, accept_items, advance, count_query, take_items, take_reply,
  poll_requests, start, poll_endpoint,
}

length-drop {ℓ} : {A : Type ℓ} (n : ℕ) (xs : List A) → length (drop n xs) ≡ length xs - n
length-drop zero xs = omega arith
length-drop (suc n) [] = omega arith
length-drop (suc n) (x ∷ xs) = omega (arith, length-drop n xs)

-- A page is empty only where no row is left.
no_page : (n : ℕ) (rows : List QueueRow) → 0 < n → [] ≡ to_items (take n rows) → rows ≡ []
no_page zero rows lt e = absurd (omega arith)
no_page (suc n) [] lt e = refl
no_page (suc n) (row ∷ rows) lt e = cc

some_page :
    (n : ℕ) (rows : List QueueRow) (item : QItem) (items : List QItem)
    → item ∷ items ≡ to_items (take n rows)
    → 0 < length rows
some_page zero rows item items e = absurd cc
some_page (suc n) [] item items e = absurd cc
some_page (suc n) (row ∷ rows) item items e = omega arith

to_items-take-drop :
    (n : ℕ) (rows : List QueueRow)
    → to_items (take n rows) ++ to_items (drop n rows) ≡ to_items rows
to_items-take-drop zero rows = refl
to_items-take-drop (suc n) [] = refl
to_items-take-drop (suc n) (row ∷ rows) =
    ap (λ items. to_item row ∷ items) (to_items-take-drop n rows)

module _ {S : Type 0} (accept : QItem → S → S × Result Bool) where
  -- The items are given to the consumer one after the other, whatever it answers.
  pub offer_all : List QItem → S → S
  offer_all [] s = s
  offer_all (item ∷ items) s = offer_all items (accept item s).0

  offer_all-append :
      (xs ys : List QItem) (s : S) → offer_all (xs ++ ys) s ≡ offer_all ys (offer_all xs s)
  unfolding offer_all
  offer_all-append [] ys s = refl
  offer_all-append (x ∷ xs) ys s = offer_all-append xs ys (accept x s).0

  -- Accepting items changes the consumer and the counters.
  accept_items_lem :
      (items : List QItem) (p : Poll S)
      → ((accept_items accept items p).consumer ≡ offer_all items p.consumer)
        × ((accept_items accept items p).last_offset ≡ p.last_offset)
        × ((accept_items accept items p).endpoint ≡ p.endpoint)
  unfolding accept_items accept_item offer_all
  accept_items_lem [] p = (refl, refl, refl)
  accept_items_lem (item ∷ items) p = accept_items_lem items (accept_item accept item p)

  -- The offset in the database is the one that is read from, and has not gone down.
  abbrev IsAhead : Poll S → Poll S → Type 0
  IsAhead p p' = (p'.endpoint.target_offset ≡ p'.last_offset) × (p.last_offset ≤ p'.last_offset)

  advance-IsAhead :
      (offset : ℕ) (p : Poll S)
      → p.endpoint.target_offset ≡ p.last_offset
      → IsAhead p (advance accept offset p)
  unfolding advance
  advance-IsAhead offset p h = elim (Bool-cases (leb offset p.last_offset)) [
    | inl q ↦ rw q ((h, omega arith))
    | inr q ↦ rw q ((refl, ground arith))
  ]

  take_items-IsAhead :
      (offset : ℕ) (items : List QItem) (p : Poll S)
      → p.endpoint.target_offset ≡ p.last_offset
      → IsAhead p (take_items accept offset items p).0
  unfolding take_items
  take_items-IsAhead offset [] p h = (h, omega arith)
  take_items-IsAhead offset (item ∷ items) p h =
      let (c, o, e) = accept_items_lem (item ∷ items) p in
      let q : Poll S = accept_items accept (item ∷ items) p in
      let (t, le) = advance-IsAhead offset q (ap (λ z. z.target_offset) e ∙ h ∙ sym o) in
      (t, omega (arith, o, le))

  take_reply-IsAhead :
      (reply : Option Reply) (p : Poll S)
      → p.endpoint.target_offset ≡ p.last_offset
      → IsAhead p (take_reply accept reply p).0
  unfolding take_reply
  take_reply-IsAhead none p h = (h, omega arith)
  take_reply-IsAhead (some reply) p h = take_items-IsAhead reply.last_offset reply.items p h

  poll_requests-IsAhead :
      (read_items : ℕ → ℕ → Option Reply) (requests i : ℕ) (p : Poll S)
      → p.endpoint.target_offset ≡ p.last_offset
      → IsAhead p (poll_requests accept read_items requests i p)
  unfolding poll_requests
  poll_requests-IsAhead read_items zero i p h = (h, omega arith)
  poll_requests-IsAhead read_items (suc requests) i p h =
      let r : Poll S × Bool =
        take_reply accept (read_items i p.last_offset) (count_query accept p) in
      let (t, le) = take_reply-IsAhead (read_items i p.last_offset) (count_query accept p) h in
      elim (Bool-cases r.1) [
        | inl more ↦
            let (t', le') = poll_requests-IsAhead read_items requests (suc i) r.0 t in
            rw more ((t', omega (arith, le, le')))
        | inr stop ↦ rw stop ((t, le))
      ]

  -- Whatever a node replies, the offset that is stored for it does not go down.
  pub poll_endpoint-le :
      (read_items : ℕ → ℕ → Option Reply) (max_requests : ℕ) (endpoint : DsetClient) (s : S)
      → endpoint.target_offset
        ≤ (poll_endpoint accept read_items max_requests endpoint s).endpoint.target_offset
  unfolding poll_endpoint
  poll_endpoint-le read_items max_requests endpoint s =
      let (t, le) =
        poll_requests-IsAhead read_items max_requests 0 (start accept endpoint s) refl in
      omega (arith, t, le)

  -- What the advance does when the offset of the reply is above the one before.
  advance-above :
      (offset : ℕ) (p : Poll S)
      → p.last_offset < offset
      → ((advance accept offset p).last_offset ≡ offset)
        × ((advance accept offset p).consumer ≡ p.consumer)
  unfolding advance
  advance-above offset p lt =
      let q : leb offset p.last_offset ≡ false = ground arith in rw q ((refl, refl))

  module _ (q : QueueServer) where
    abbrev pub honest : ℕ → ℕ → Option Reply
    honest i offset = some (read_with_last_offset q offset)

    abbrev left : Poll S → List QueueRow
    left p = rows_after p.last_offset q.rows

    -- A page was given to the consumer, and fewer rows are left.
    abbrev IsPage : Poll S → Poll S → Type 0
    IsPage p p' =
        (p'.consumer ≡ offer_all (to_items (take q.reply_page_size (left p))) p.consumer)
        × (left p' ≡ drop q.reply_page_size (left p))
        × (length (left p') < length (left p))

    -- One request: either no row is left and the loop ends, or a page is given to the consumer.
    abbrev IsServed : Poll S → Poll S × Bool → Type 0
    IsServed p r = ((left p ≡ []) × (r ≡ (p, false))) ⊎ ((r.1 ≡ true) × IsPage p r.0)

    take_items-IsServed :
        (offset : ℕ) (items : List QItem) (p : Poll S)
        → 0 < q.reply_page_size
        → items ≡ to_items (take q.reply_page_size (left p))
        → p.last_offset ≤ offset
        → rows_after offset q.rows ≡ drop q.reply_page_size (left p)
        → IsServed p (take_items accept offset items p)
    unfolding take_items
    take_items-IsServed offset [] p positive e le rest =
        inl (no_page q.reply_page_size (left p) positive e, refl)
    take_items-IsServed offset (item ∷ items) p positive e le rest =
        let some_left : 0 < length (left p) = some_page q.reply_page_size (left p) item items e in
        let fewer : length (drop q.reply_page_size (left p)) < length (left p) =
          omega (arith, length-drop q.reply_page_size (left p)) in
        let lt : p.last_offset < offset = elim (Bool-cases (nat_beq p.last_offset offset)) [
          | inl same ↦
              let o : p.last_offset ≡ offset = ground arith in
              let n : length (left p) ≡ length (drop q.reply_page_size (left p)) =
                ap length (ap (λ z. rows_after z q.rows) o ∙ rest) in
              absurd (omega arith)
          | inr other ↦ ground arith
        ] in
        let (c, l, _) = accept_items_lem (item ∷ items) p in
        let (l', c') =
          advance-above offset (accept_items accept (item ∷ items) p) (omega (arith, l, lt)) in
        let now : left (advance accept offset (accept_items accept (item ∷ items) p))
            ≡ drop q.reply_page_size (left p) =
          ap (λ z. rows_after z q.rows) l' ∙ rest in
        inr (
          refl,
          (c' ∙ c ∙ ap (λ z. offer_all z p.consumer) e, now, omega (arith, ap length now, fewer)),
        )

    offered :
        (p p' : Poll S)
        → IsPage p p'
        → offer_all (to_items (left p')) p'.consumer ≡ offer_all (to_items (left p)) p.consumer
    offered p p' (c, now, fewer) =
        let page : List QItem = to_items (take q.reply_page_size (left p)) in
        let rest : List QItem = to_items (drop q.reply_page_size (left p)) in
        ap (offer_all (to_items (left p'))) c
        ∙ ap (λ z. offer_all (to_items z) (offer_all page p.consumer)) now
        ∙ sym (offer_all-append page rest p.consumer)
        ∙ ap (λ z. offer_all z p.consumer) (to_items-take-drop q.reply_page_size (left p))

    poll_requests-honest :
        (requests i : ℕ) (p : Poll S)
        → IsLog q
        → 0 < q.reply_page_size
        → length (left p) < requests
        → let p' : Poll S = poll_requests accept honest requests i p in
          (p'.consumer ≡ offer_all (to_items (left p)) p.consumer) × (left p' ≡ [])
    unfolding poll_requests take_reply offer_all
    poll_requests-honest zero i p log positive lt = absurd (omega arith)
    poll_requests-honest (suc requests) i p log positive lt =
        let (e, le, rest) = read_with_last_offset_lem q p.last_offset log positive in
        let reply : Reply = read_with_last_offset q p.last_offset in
        let p0 : Poll S = count_query accept p in
        elim (take_items-IsServed reply.last_offset reply.items p0 positive e le rest) [
          | inl (none_left, stop) ↦ rw (stop, none_left) ((refl, refl))
          | inr (more, page) ↦
              let p1 : Poll S = (take_items accept reply.last_offset reply.items p0).0 in
              let (c, now, fewer) = page in
              let (c', done) =
                poll_requests-honest requests (suc i) p1 log positive (omega arith) in
              rw more ((c' ∙ offered p p1 page, done))
        ]

    -- A poll of a queue that replies as `readWithLastOffset` does, with more requests than there are
    -- rows after the offset of the endpoint, gives the consumer each of these rows once, in the order
    -- of the log, and leaves an offset after which there is no row.
    pub poll_endpoint_complete :
        (max_requests : ℕ) (endpoint : DsetClient) (s : S)
        → IsLog q
        → 0 < q.reply_page_size
        → length (rows_after endpoint.target_offset q.rows) < max_requests
        → let p : Poll S = poll_endpoint accept honest max_requests endpoint s in
          (p.consumer ≡ offer_all (to_items (rows_after endpoint.target_offset q.rows)) s)
          × (rows_after p.endpoint.target_offset q.rows ≡ [])
    unfolding poll_endpoint
    poll_endpoint_complete max_requests endpoint s log positive lt =
        let (c, done) =
          poll_requests-honest max_requests 0 (start accept endpoint s) log positive lt in
        let (t, _) = poll_requests-IsAhead honest max_requests 0 (start accept endpoint s) refl in
        (c, ap (λ z. rows_after z q.rows) t ∙ done)
