-- ===== src/ValidatorContractState/Laws.antt =====
-- The states that the events of the validator contract lead to.
use push_snode.Base.{
  ℕ, String, true, [], ◌∷◌, Option, some, ok, subst, ◌≡◌, refl, sym, ◌∙◌, ap, arith, All,
  Bool-cases, Option-cases, inl, inr, nat_beq, ◌==◌, ==_iff, string_eq,
}
use push_snode.Base.JsSet.{has}
use push_snode.Base.JsMap.{JsMap, get, set, keys, has-keys-set}
use push_snode.ValidatorContractState.{
  NodeInfo, ValidatorCtClient, v_node, s_node, a_node, update_map_by_type, node_added,
  node_status_changed, block_params_updated, random_params_updated,
}

-- An entry is filed under its id, in the map of its type.
abbrev IsFiled : ℕ → String × NodeInfo → Type 0
IsFiled node_type (k, ni) = (ni.node_id ≡ k) × (ni.node_type ≡ node_type)

abbrev AreFiled : ℕ → JsMap String NodeInfo → Type 0
AreFiled node_type m = All (IsFiled node_type) m

abbrev pub IsWellFormed : ValidatorCtClient → Type 0
IsWellFormed cli =
    AreFiled v_node cli.vnodes × AreFiled s_node cli.snodes × AreFiled a_node cli.anodes

set-AreFiled :
    (t : ℕ) (m : JsMap String NodeInfo) (k : String) (ni : NodeInfo)
    → AreFiled t m
    → (ni.node_id ≡ k)
    → (ni.node_type ≡ t)
    → AreFiled t (set m k ni)
unfolding set
set-AreFiled t [] k ni h e q = ((e, q), tt)
set-AreFiled t ((j, w) ∷ m) k ni (p, h) e q = elim (Bool-cases (j == k)) [
  | inl same ↦ rw same (((e ∙ sym ((==_iff j k).0 same)), q), h)
  | inr other ↦ rw other (p, set-AreFiled t m k ni h e q)
]

get-IsFiled :
    (t : ℕ) (m : JsMap String NodeInfo) (k : String) (ni : NodeInfo)
    → AreFiled t m
    → get m k ≡ some ni
    → IsFiled t (k, ni)
unfolding get
get-IsFiled t [] k ni h e = cc
get-IsFiled t ((j, w) ∷ m) k ni ((p, q), h) e = elim (Bool-cases (j == k)) [
  | inl same ↦
      let entry : some w ≡ some ni = rw same at e in
      let w_is : w ≡ ni = cc in
      (
        ap (λ x. x.node_id) (sym w_is) ∙ p ∙ (==_iff j k).0 same,
        ap (λ x. x.node_type) (sym w_is) ∙ q,
      )
  | inr other ↦ get-IsFiled t m k ni h (rw other at e)
]

set-status-AreFiled :
    (t : ℕ) (m : JsMap String NodeInfo) (k : String) (ni : NodeInfo) (status : ℕ)
    → AreFiled t m
    → get m k ≡ some ni
    → AreFiled t (set m k (record ni { node_status = status }))
set-status-AreFiled t m k ni status h e =
    let (p, q) = get-IsFiled t m k ni h e in
    set-AreFiled t m k (record ni { node_status = status }) h p q

module _ (fix_node_url : String → Option String) where
  -- One event that the client handles without an error.
  pub data Event (cli : ValidatorCtClient) : ValidatorCtClient → Type 0 where
    added :
        (cli' : ValidatorCtClient) (node_wallet : String) (node_type : ℕ)
        (node_api_base_url : String)
        → node_added fix_node_url cli node_wallet node_type node_api_base_url ≡ ok cli'
        → Event cli cli'
    status_changed :
        (node_wallet : String) (node_status : ℕ)
        → Event cli (node_status_changed cli node_wallet node_status)
    block_params : (per_block target : ℕ) → Event cli (block_params_updated cli per_block target)
    random_params :
        (min_count ping_count : ℕ) → Event cli (random_params_updated cli min_count ping_count)

  pub data Reaches (start : ValidatorCtClient) : ValidatorCtClient → Type 0 where
    here : Reaches start start
    after : {cli cli' : ValidatorCtClient} → Reaches start cli → Event cli cli' → Reaches start cli'

  node_status_changed-IsWellFormed :
      (cli : ValidatorCtClient) (node_wallet : String) (node_status : ℕ)
      → IsWellFormed cli
      → IsWellFormed (node_status_changed cli node_wallet node_status)
  unfolding node_status_changed
  node_status_changed-IsWellFormed cli k status (v, s, a) = elim (Option-cases (get cli.vnodes k)) [
    | inr (ni, e) ↦
        rw (e, node_status_changed) (set-status-AreFiled v_node cli.vnodes k ni status v e, s, a)
    | inl e ↦ elim (Option-cases (get cli.snodes k)) [
      | inr (ni, e') ↦
          rw (e, e', node_status_changed)
            (v, set-status-AreFiled s_node cli.snodes k ni status s e', a)
      | inl e' ↦ elim (Option-cases (get cli.anodes k)) [
        | inr (ni, e'') ↦
            rw (e, e', e'', node_status_changed)
              (v, s, set-status-AreFiled a_node cli.anodes k ni status a e'')
        | inl e'' ↦ rw (e, e', e'', node_status_changed) (v, s, a)
      ]
    ]
  ]

  node_added-IsWellFormed :
      (cli cli' : ValidatorCtClient) (k : String) (t : ℕ) (url : String)
      → IsWellFormed cli
      → node_added fix_node_url cli k t url ≡ ok cli'
      → IsWellFormed cli'
  unfolding node_added update_map_by_type
  node_added-IsWellFormed cli cli' k t url (v, s, a) e =
      let ni : NodeInfo = record {
        node_id = k;
        url = fix_node_url url;
        node_type = t;
        node_status = 0;
      } in
      elim (Bool-cases (nat_beq t v_node)) [
        | inl is_v ↦
            let q : ok (record cli { vnodes = set cli.vnodes k ni }) ≡ ok cli' = rw is_v at e in
            let w : record cli { vnodes = set cli.vnodes k ni } ≡ cli' = cc in
            subst IsWellFormed w (set-AreFiled v_node cli.vnodes k ni v refl (ground arith), s, a)
        | inr not_v ↦ elim (Bool-cases (nat_beq t s_node)) [
          | inl is_s ↦
              let q : ok (record cli { snodes = set cli.snodes k ni }) ≡ ok cli' =
                rw (not_v, is_s) at e in
              let w : record cli { snodes = set cli.snodes k ni } ≡ cli' = cc in
              subst IsWellFormed w (v, set-AreFiled s_node cli.snodes k ni s refl (ground arith), a)
          | inr not_s ↦ elim (Bool-cases (nat_beq t a_node)) [
            | inl is_a ↦
                let q : ok (record cli { anodes = set cli.anodes k ni }) ≡ ok cli' =
                  rw (not_v, not_s, is_a) at e in
                let w : record cli { anodes = set cli.anodes k ni } ≡ cli' = cc in
                subst IsWellFormed w
                  (v, s, set-AreFiled a_node cli.anodes k ni a refl (ground arith))
            | inr not_a ↦ cc (rw (not_v, not_s, not_a) at e)
          ]
        ]
      ]

  -- Events keep every node filed under its id in the map of its type.
  pub Reaches-IsWellFormed :
      (start cli : ValidatorCtClient) → Reaches start cli → IsWellFormed start → IsWellFormed cli
  unfolding block_params_updated random_params_updated
  Reaches-IsWellFormed start cli here h = h
  Reaches-IsWellFormed start cli (after {cli = before} r (added _ k t url e)) h =
      node_added-IsWellFormed before cli k t url (Reaches-IsWellFormed start before r h) e
  Reaches-IsWellFormed start _ (after {cli = before} r (status_changed k status)) h =
      node_status_changed-IsWellFormed before k status (Reaches-IsWellFormed start before r h)
  Reaches-IsWellFormed start _ (after {cli = before} r (block_params n t)) h =
      Reaches-IsWellFormed start before r h
  Reaches-IsWellFormed start _ (after {cli = before} r (random_params n t)) h =
      Reaches-IsWellFormed start before r h

  node_status_changed-has :
      (cli : ValidatorCtClient) (k : String) (status : ℕ) (a : String)
      → has (keys cli.vnodes) a ≡ true
      → has (keys (node_status_changed cli k status).vnodes) a ≡ true
  unfolding node_status_changed
  node_status_changed-has cli k status a h = elim (Option-cases (get cli.vnodes k)) [
    | inr (ni, e) ↦
        rw (e, node_status_changed)
          (ground (arith, has-keys-set cli.vnodes k a (record ni { node_status = status })))
    | inl e ↦ elim (Option-cases (get cli.snodes k)) [
      | inr (ni, e') ↦ rw (e, e', node_status_changed) h
      | inl e' ↦ elim (Option-cases (get cli.anodes k)) [
        | inr (ni, e'') ↦ rw (e, e', e'', node_status_changed) h
        | inl e'' ↦ rw (e, e', e'', node_status_changed) h
      ]
    ]
  ]

  node_added-has :
      (cli cli' : ValidatorCtClient) (k : String) (t : ℕ) (url a : String)
      → node_added fix_node_url cli k t url ≡ ok cli'
      → has (keys cli.vnodes) a ≡ true
      → has (keys cli'.vnodes) a ≡ true
  unfolding node_added update_map_by_type
  node_added-has cli cli' k t url a e h =
      let ni : NodeInfo = record {
        node_id = k;
        url = fix_node_url url;
        node_type = t;
        node_status = 0;
      } in
      elim (Bool-cases (nat_beq t v_node)) [
        | inl is_v ↦
            let q : ok (record cli { vnodes = set cli.vnodes k ni }) ≡ ok cli' = rw is_v at e in
            let w : record cli { vnodes = set cli.vnodes k ni } ≡ cli' = cc in
            subst (λ c. has (keys c.vnodes) a ≡ true) w
              (ground (arith, has-keys-set cli.vnodes k a ni))
        | inr not_v ↦ elim (Bool-cases (nat_beq t s_node)) [
          | inl is_s ↦
              let q : ok (record cli { snodes = set cli.snodes k ni }) ≡ ok cli' =
                rw (not_v, is_s) at e in
              let w : record cli { snodes = set cli.snodes k ni } ≡ cli' = cc in
              subst (λ c. has (keys c.vnodes) a ≡ true) w h
          | inr not_s ↦ elim (Bool-cases (nat_beq t a_node)) [
            | inl is_a ↦
                let q : ok (record cli { anodes = set cli.anodes k ni }) ≡ ok cli' =
                  rw (not_v, not_s, is_a) at e in
                let w : record cli { anodes = set cli.anodes k ni } ≡ cli' = cc in
                subst (λ c. has (keys c.vnodes) a ≡ true) w h
            | inr not_a ↦ cc (rw (not_v, not_s, not_a) at e)
          ]
        ]
      ]

  -- No event removes a validator from the map whose keys are the validators that a block may be
  -- signed by, so a validator that is banned or unstaked stays among them.
  pub Reaches-has-keys :
      (start cli : ValidatorCtClient) (a : String)
      → Reaches start cli
      → has (keys start.vnodes) a ≡ true
      → has (keys cli.vnodes) a ≡ true
  unfolding block_params_updated random_params_updated
  Reaches-has-keys start cli a here h = h
  Reaches-has-keys start cli a (after {cli = before} r (added _ k t url e)) h =
      node_added-has before cli k t url a e (Reaches-has-keys start before a r h)
  Reaches-has-keys start _ a (after {cli = before} r (status_changed k status)) h =
      node_status_changed-has before k status a (Reaches-has-keys start before a r h)
  Reaches-has-keys start _ a (after {cli = before} r (block_params n t)) h =
      Reaches-has-keys start before a r h
  Reaches-has-keys start _ a (after {cli = before} r (random_params n t)) h =
      Reaches-has-keys start before a r h
