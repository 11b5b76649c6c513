-- ===== src/QueueClientHelper/Rows.antt =====
-- What is read of a row, before and after one is written.
use push_snode.Base.{
  ℕ, String, ◌≡◌, refl, sym, ap, ◌∙◌, subst, inl, inr, Bool, true, false, ◌&&◌, List, [], ◌∷◌, ◌++◌,
  Option, none, some, ok, if◌then◌else◌, Bool-cases, ◌==◌, ==_iff, arith, any, string_eq,
}
use push_snode.QueueClient.{DsetClient}
use push_snode.QueueClientHelper.{DsetTable, is_client, update_clients, upsert_client}

-- The first row of a queue of a node: there is no other.
unfoldable pub find_client : String → String → List DsetClient → Option DsetClient
find_client q n [] = none
find_client q n (row ∷ rows) = if is_client q n row then some row else find_client q n rows

-- What the client of a queue reads: the url, the state and the offset.
abbrev pub Endpoint : Type 0
Endpoint = Option String × ℕ × ℕ

abbrev pub endpoint : Option DsetClient → Option Endpoint
endpoint none = none
endpoint (some row) = some (some row.target_node_url, row.state, row.target_offset)

-- where a queue is read from
abbrev pub offset_of : Option Endpoint → ℕ
offset_of none = 0
offset_of (some (url, state, offset)) = offset

abbrev pub endpoint_at : String → String → DsetTable → Option Endpoint
endpoint_at q n t = endpoint (find_client q n t.rows)

abbrev pub is_key : String → String → String → String → Bool
is_key q n q' n' = q == q' && n == n'

-- an updated row
abbrev with_url : Option String → ℕ → Option Endpoint → Option Endpoint
with_url url state none = none
with_url url state (some (old_url, old_state, offset)) = some (url, state, offset)

find-update_same :
    (q n url : String) (state : ℕ) (rows : List DsetClient)
    → endpoint (find_client q n (update_clients q n url state rows))
      ≡ with_url (some url) state (endpoint (find_client q n rows))
unfolding find_client update_clients
find-update_same q n url state [] = refl
find-update_same q n url state (row ∷ rows) = elim (Bool-cases (is_client q n row)) [
  | inl h ↦ rw h (rw h refl)
  | inr h ↦ rw h (rw h (find-update_same q n url state rows))
]

find-update_other :
    (q n url : String) (state : ℕ) (rows : List DsetClient) (q' n' : String)
    → is_key q n q' n' ≡ false
    → find_client q' n' (update_clients q n url state rows) ≡ find_client q' n' rows
unfolding find_client update_clients
find-update_other q n url state [] q' n' other = refl
find-update_other q n url state (row ∷ rows) q' n' other =
    let ih : find_client q' n' (update_clients q n url state rows) ≡ find_client q' n' rows =
      find-update_other q n url state rows q' n' other in
    elim (Bool-cases (is_client q n row)) [
      | inl h ↦
          let skip : is_client q' n' row ≡ false = ground (
            arith,
            h,
            other,
            ==_iff row.queue_name q,
            ==_iff row.target_node_id n,
            ==_iff row.queue_name q',
            ==_iff row.target_node_id n',
            ==_iff q q',
            ==_iff n n',
          ) in
          rw h (rw (skip, ih) refl)
      | inr h ↦ rw h (rw ih refl)
    ]

abbrev or_new : Option DsetClient → Option DsetClient → Option DsetClient
or_new none o = o
or_new (some r) o = some r

find-snoc :
    (rows : List DsetClient) (row : DsetClient) (q n : String)
    → find_client q n (rows ++ (row ∷ []))
      ≡ or_new (find_client q n rows) (if is_client q n row then some row else none)
unfolding find_client
find-snoc [] row q n = refl
find-snoc (r ∷ rows) row q n = elim (Bool-cases (is_client q n r)) [
  | inl h ↦ rw h refl
  | inr h ↦ rw h (find-snoc rows row q n)
]

or_none : (o : Option DsetClient) → or_new o none ≡ o
or_none none = refl
or_none (some r) = refl

find-none :
    (q n : String) (rows : List DsetClient)
    → any (is_client q n) rows ≡ false
    → find_client q n rows ≡ none
unfolding find_client
find-none q n [] h = refl
find-none q n (row ∷ rows) h = ground (arith, find-none q n rows)

find-some :
    (q n : String) (rows : List DsetClient)
    → any (is_client q n) rows ≡ true
    → (row : DsetClient) × (find_client q n rows ≡ some row)
unfolding find_client
find-some q n [] h = cc
find-some q n (row ∷ rows) h = elim (Bool-cases (is_client q n row)) [
  | inl here ↦ (row, rw here refl)
  | inr later ↦ let (r, e) = find-some q n rows (ground arith) in (r, rw later e)
]

module _ (q n url : String) (state : ℕ) (t : DsetTable) (q' n' : String) where
  -- what is read after the row is written
  abbrev written : Option Endpoint
  written =
      if is_key q n q' n'
      then some (some url, state, offset_of (endpoint_at q' n' t))
      else endpoint_at q' n' t

  updated-endpoint :
      any (is_client q n) t.rows ≡ true
      → endpoint (find_client q' n' (update_clients q n url state t.rows)) ≡ written
  updated-endpoint known = elim (Bool-cases (is_key q n q' n')) [
    | inl same ↦
        let eq : q ≡ q' = (==_iff q q').0 (ground (arith, same)) in
        let en : n ≡ n' = (==_iff n n').0 (ground (arith, same)) in
        let (row, found) = find-some q n t.rows known in
        let found' : find_client q' n' t.rows ≡ some row =
          subst (λ z. find_client z n' t.rows ≡ some row) eq
            (subst (λ z. find_client q z t.rows ≡ some row) en found) in
        let there : endpoint (find_client q' n' (update_clients q n url state t.rows))
            ≡ some (some url, state, row.target_offset) =
          subst
            (λ z.
              endpoint (find_client z n' (update_clients q n url state t.rows))
              ≡ some (some url, state, row.target_offset))
            eq
            (subst
              (λ z.
                endpoint (find_client q z (update_clients q n url state t.rows))
                ≡ some (some url, state, row.target_offset))
              en (find-update_same q n url state t.rows ∙ rw found refl)) in
        there ∙ rw same (rw found' refl)
    | inr other ↦ rw other (ap endpoint (find-update_other q n url state t.rows q' n' other))
  ]

  abbrev new_row : DsetClient
  new_row = record {
    id = t.next_id;
    queue_name = q;
    target_node_id = n;
    target_node_url = url;
    target_offset = 0;
    state = state;
  }

  appended-endpoint :
      any (is_client q n) t.rows ≡ false
      → endpoint (find_client q' n' (t.rows ++ (new_row ∷ []))) ≡ written
  appended-endpoint fresh = elim (Bool-cases (is_key q n q' n')) [
    | inl same ↦
        let eq : q ≡ q' = (==_iff q q').0 (ground (arith, same)) in
        let en : n ≡ n' = (==_iff n n').0 (ground (arith, same)) in
        let absent : find_client q n t.rows ≡ none = find-none q n t.rows fresh in
        let absent' : find_client q' n' t.rows ≡ none =
          subst (λ z. find_client z n' t.rows ≡ none) eq
            (subst (λ z. find_client q z t.rows ≡ none) en absent) in
        ap endpoint (find-snoc t.rows new_row q' n') ∙ rw absent' (rw same refl)
    | inr other ↦
        ap endpoint (find-snoc t.rows new_row q' n')
        ∙ rw other (ap endpoint (or_none (find_client q' n' t.rows)))
  ]

-- A row that is written has the url and the state; its offset is the old one, and 0 where it is new.
-- The other rows are as before.
pub upsert_client-endpoint :
    (q n : String) (url : Option String) (state : ℕ) (t t' : DsetTable)
    → upsert_client q n url state t ≡ (t', ok tt)
    → (q' n' : String)
    → endpoint_at q' n' t' ≡ (
        if is_key q n q' n'
        then some (url, state, offset_of (endpoint_at q' n' t))
        else endpoint_at q' n' t)
unfolding upsert_client
upsert_client-endpoint q n none state t t' h q' n' = cc
upsert_client-endpoint q n (some url) state t t' h q' n' =
    elim (Bool-cases (any (is_client q n) t.rows)) [
      | inl known ↦
          ap (λ rs. endpoint (find_client q' n' rs)) (sym (ap (λ z. z.0.rows) (rw known at h)))
          ∙ updated-endpoint q n url state t q' n' known
      | inr fresh ↦
          ap (λ rs. endpoint (find_client q' n' rs)) (sym (ap (λ z. z.0.rows) (rw fresh at h)))
          ∙ appended-endpoint q n url state t q' n' fresh
    ]
