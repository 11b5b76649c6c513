-- ===== src/IndexStorage/Expiry/Laws.antt =====
-- Deleting page by page deletes what one deletion would.
use push_snode.Base.{
  filter-filter, ℕ, zero, suc, ◌+◌, ◌*◌, ◌/◌, ◌≤◌, ◌<◌, String, ◌≡◌, refl, ap, sym, ◌∙◌, Bool, true,
  false, not, ◌&&◌, ◌||◌, List, [], ◌∷◌, ◌++◌, Option, none, some, if◌then◌else◌, arith, length,
  filter, take, drop, nat_beq, ltb, Bool-cases, inl, inr, ◌⊎◌, ◌==◌, ==_iff, ==_self, string_eq,
}
use push_snode.Base.JsSet.{has, has-filter}
use push_snode.Db.{Db}
use push_snode.IndexStorage.Expiry.{
  select_keys, delete_keys, delete_rounds, expired_row, row_skey, inbox_page_size, page_count,
  delete_shards_from_inboxes,
}

has-take : (n : ℕ) (xs : List String) (a : String) → has (take n xs) a ≡ true → has xs a ≡ true
unfolding has
has-take zero xs a h = cc
has-take (suc n) [] a h = cc
has-take (suc n) (x ∷ xs) a h = ground (arith, has-take n xs a, ==_iff x a)

-- A batch that starts with the first keys leaves at most the others.
length-filter-take :
    (n : ℕ) (batch xs : List String)
    → ((a : String) → has (take n xs) a ≡ true → has batch a ≡ true)
    → length (filter (λ a. not (has batch a)) xs) + length (take n xs) ≤ length xs
unfolding has
length-filter-take zero batch xs h =
    omega (arith, push_snode.Base.length-filter-le (λ a. not (has batch a)) xs)
length-filter-take (suc n) batch [] h = omega arith
length-filter-take (suc n) batch (x ∷ xs) h =
    let gone : has batch x ≡ true = h x (ground (arith, ==_self x)) in
    let tail : length (filter (λ a. not (has batch a)) xs) + length (take n xs) ≤ length xs =
      length-filter-take n batch xs (λ a q. h a (ground (arith, ==_iff x a))) in
    rw gone (omega (arith, tail))

take_all_or_n :
    (n : ℕ) (xs : List String) → (length (take n xs) ≡ n) ⊎ (length (take n xs) ≡ length xs)
take_all_or_n zero xs = inl refl
take_all_or_n (suc n) [] = inr refl
take_all_or_n (suc n) (x ∷ xs) = elim (take_all_or_n n xs) [
  | inl q ↦ inl (ap suc q)
  | inr q ↦ inr (ap suc q)
]

-- One page fewer is left for the other rounds.
length-filter-page :
    (rounds page_size : ℕ) (ks : List String)
    → length ks ≤ suc rounds * page_size
    → length (filter (λ a. not (has (take page_size ks) a)) ks) ≤ rounds * page_size
length-filter-page rounds page_size ks le =
    let fewer : length (filter (λ a. not (has (take page_size ks) a)) ks)
          + length (take page_size ks)
        ≤ length ks =
      length-filter-take page_size (take page_size ks) ks (λ a q. q) in
    let page : suc rounds * page_size ≡ page_size + rounds * page_size = omega arith in
    elim (take_all_or_n page_size ks) [
      | inl q ↦ omega (arith, fewer, q, page, le)
      | inr q ↦ omega (arith, fewer, q)
    ]

module _ {R : Type 0} (key : R → String) (test : R → Bool) where
  -- what one deletion deletes
  abbrev pub delete_all : List R → List R
  delete_all rows = delete_keys key test (select_keys key test rows) rows

  select_keys-delete :
      (batch : List String) (rows : List R)
      → select_keys key test (delete_keys key test batch rows)
        ≡ filter (λ a. not (has batch a)) (select_keys key test rows)
  unfolding select_keys
  select_keys-delete batch [] = refl
  select_keys-delete batch (row ∷ rows) = elim (Bool-cases (has batch (key row))) [
    | inl q ↦ elim (Bool-cases (test row)) [
      | inl t ↦ rw (q, t) (rw q (select_keys-delete batch rows))
      | inr t ↦ rw (q, t) (select_keys-delete batch rows)
    ]
    | inr q ↦ elim (Bool-cases (test row)) [
      | inl t ↦ rw (q, t) (rw q (ap (λ ks. key row ∷ ks) (select_keys-delete batch rows)))
      | inr t ↦ rw (q, t) (select_keys-delete batch rows)
    ]
  ]

  -- After a batch of keys that are to go, what one deletion leaves is the same.
  delete_all-delete :
      (batch : List String) (rows : List R)
      → ((a : String) → has batch a ≡ true → has (select_keys key test rows) a ≡ true)
      → delete_all (delete_keys key test batch rows) ≡ delete_all rows
  delete_all-delete batch rows h =
      let ks : List String = select_keys key test rows in
      ap (λ ls. delete_keys key test ls (delete_keys key test batch rows))
        (select_keys-delete batch rows)
      ∙ filter-filter (λ row. not (has batch (key row)))
          (λ row. not (has (filter (λ a. not (has batch a)) ks) (key row)))
          (λ row. not (has ks (key row))) rows
          (λ row. ground (arith, has-filter (λ a. not (has batch a)) ks (key row), h (key row)))

  delete_all-none :
      (rows all_rows : List R)
      → select_keys key test all_rows ≡ []
      → delete_keys key test (select_keys key test all_rows) rows ≡ rows
  unfolding has
  delete_all-none rows all_rows e = rw e (keep rows)
    where
      keep : (rs : List R) → filter (λ row. true) rs ≡ rs
      keep [] = refl
      keep (r ∷ rs) = ap (λ z. r ∷ z) (keep rs)

  -- Enough rounds delete what one deletion of all the keys would.
  delete_rounds_lem :
      (rounds page_size : ℕ) (rows : List R)
      → length (select_keys key test rows) ≤ rounds * page_size
      → delete_rounds key test rounds page_size rows ≡ delete_all rows
  unfolding delete_rounds
  delete_rounds_lem zero page_size rows le =
      sym (delete_all-none rows rows (empty (select_keys key test rows) (omega arith)))
    where
      empty : (ks : List String) → length ks ≤ 0 → ks ≡ []
      empty [] h = refl
      empty (k ∷ ks) h = absurd (omega arith)
  delete_rounds_lem (suc rounds) page_size rows le =
      let ks : List String = select_keys key test rows in
      let batch : List String = take page_size ks in
      delete_rounds_lem rounds page_size (delete_keys key test batch rows)
        (rw (select_keys-delete batch rows) (length-filter-page rounds page_size ks le))
      ∙ delete_all-delete batch rows (λ a q. has-take page_size ks a q)

-- Every round but one is needed for a page of a thousand rows.
page_count-enough : (count : ℕ) → count ≤ suc (page_count count) * inbox_page_size
page_count-enough count = omega arith

no_keys : (ks : List String) → length ks ≡ 0 → ks ≡ []
no_keys [] h = refl
no_keys (k ∷ ks) h = absurd (omega arith)

-- Deleting page by page what has expired at `now` leaves the rows of the inboxes that one deletion
-- leaves, which deletes every row whose `skey` is that of an expired row: the rounds are enough for
-- every number of expired rows. The other tables keep their rows.
pub delete_shards_from_inboxes_lem :
    (now : ℕ) (db : Db)
    → delete_shards_from_inboxes now db
      ≡ record db { storage_node = delete_all row_skey (expired_row now) db.storage_node }
unfolding delete_shards_from_inboxes
delete_shards_from_inboxes_lem now db =
    let keys : List String = select_keys row_skey (expired_row now) db.storage_node in
    elim (Bool-cases (nat_beq (length keys) 0)) [
      | inl q ↦ rw q (
          ap (λ rows. record db { storage_node = rows })
            (sym (
              delete_all-none row_skey (expired_row now) db.storage_node db.storage_node
                (no_keys keys (ground arith)))))
      | inr q ↦ rw q (
          ap (λ rows. record db { storage_node = rows })
            (delete_rounds_lem row_skey (expired_row now) (suc (page_count (length keys)))
              inbox_page_size db.storage_node (page_count-enough (length keys))))
    ]
