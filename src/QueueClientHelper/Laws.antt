-- ===== src/QueueClientHelper/Laws.antt =====
-- Which rows the set-up leaves.
use push_snode.Base.{
  String, ◌≡◌, refl, sym, ap, ◌∙◌, subst, ◌⊎◌, inl, inr, Bool, true, false, not, List, [], ◌∷◌,
  Option, none, some, ok, if◌then◌else◌, Bool-cases, ◌==◌, arith, filter, length, nat_beq, guard,
  assertion_failed, string_eq,
}
use push_snode.Base.JsSet.{has}
use push_snode.Base.Steps.{>>=-eq-ok, lift}
use push_snode.ValidatorContractState.{
  NodeInfo, ValidatorCtClient, is_enabled, get_all_validators_except_self, values,
}
use push_snode.QueueClientHelper.{
  DsetTable, upsert_client, target_state, init_clients, init_queues,
  init_client_for_every_queue_for_every_validator,
}
use push_snode.QueueClientHelper.Rows.{Endpoint, offset_of, endpoint_at, upsert_client-endpoint}

abbrev or_node : Option NodeInfo → Option NodeInfo → Option NodeInfo
or_node none o = o
or_node (some ni) o = some ni

-- The last node of the id.
unfoldable pub last_node : String → List NodeInfo → Option NodeInfo
last_node n [] = none
last_node n (ni ∷ nodes) = or_node (last_node n nodes) (if ni.node_id == n then some ni else none)

-- An endpoint after its node was visited: it keeps its offset.
abbrev pub visited : Option NodeInfo → Option Endpoint → Option Endpoint
visited none old = old
visited (some ni) old = some (ni.url, target_state ni, offset_of old)

visited-twice :
    (o : Option NodeInfo) (old : Option Endpoint) → visited o (visited o old) ≡ visited o old
visited-twice none old = refl
visited-twice (some ni) old = refl

visited-step :
    (later : Option NodeInfo) (ni : NodeInfo) (here : Bool) (old : Option Endpoint)
    → visited later (if here then visited (some ni) old else old)
      ≡ visited (or_node later (if here then some ni else none)) old
visited-step none ni true old = refl
visited-step none ni false old = refl
visited-step (some l) ni true old = refl
visited-step (some l) ni false old = refl

init_clients-endpoint :
    (q : String) (nodes : List NodeInfo) (t t' : DsetTable)
    → init_clients q nodes t ≡ (t', ok tt)
    → (q' n' : String)
    → endpoint_at q' n' t' ≡ (
        if q == q' then visited (last_node n' nodes) (endpoint_at q' n' t) else endpoint_at q' n' t)
unfolding init_clients last_node
init_clients-endpoint q [] t t' h q' n' =
    sym (ap (λ z. endpoint_at q' n' z.0) h)
    ∙ elim (Bool-cases (q == q')) [ inl same ↦ rw same refl | inr other ↦ rw other refl ]
init_clients-endpoint q (ni ∷ nodes) t t' h q' n' =
    let (t1, u, first, rest) =
      >>=-eq-ok (upsert_client q ni.node_id ni.url (target_state ni)) (λ _. init_clients q nodes)
        h in
    let e1 = upsert_client-endpoint q ni.node_id ni.url (target_state ni) t t1 first q' n' in
    init_clients-endpoint q nodes t1 t' rest q' n' ∙ elim (Bool-cases (q == q')) [
      | inl same ↦ rw same (
          ap (visited (last_node n' nodes)) (e1 ∙ rw same refl)
          ∙ visited-step (last_node n' nodes) ni (ni.node_id == n') (endpoint_at q' n' t))
      | inr other ↦ rw other (e1 ∙ rw other refl)
    ]

init_queues-endpoint :
    (queue_names : List String) (nodes : List NodeInfo) (t t' : DsetTable)
    → init_queues queue_names nodes t ≡ (t', ok tt)
    → (q n : String)
    → endpoint_at q n t' ≡ (
        if has queue_names q
        then visited (last_node n nodes) (endpoint_at q n t)
        else endpoint_at q n t)
unfolding init_queues has
init_queues-endpoint [] nodes t t' h q n = sym (ap (λ z. endpoint_at q n z.0) h)
init_queues-endpoint (name ∷ names) nodes t t' h q n =
    let (t1, u, first, rest) =
      >>=-eq-ok (init_clients name nodes) (λ _. init_queues names nodes) h in
    let e1 = init_clients-endpoint name nodes t t1 first q n in
    init_queues-endpoint names nodes t1 t' rest q n ∙ elim (Bool-cases (name == q)) [
      | inl same ↦
          let e : endpoint_at q n t1 ≡ visited (last_node n nodes) (endpoint_at q n t) =
            e1 ∙ rw same refl in
          rw (e, same)
            (elim (Bool-cases (has names q)) [
              | inl again ↦ rw again (visited-twice (last_node n nodes) (endpoint_at q n t))
              | inr once ↦ rw once refl
            ])
      | inr other ↦
          let e : endpoint_at q n t1 ≡ endpoint_at q n t = e1 ∙ rw other refl in rw (e, other) refl
    ]

or_node-cases :
    (o o' : Option NodeInfo) {ni : NodeInfo}
    → or_node o o' ≡ some ni
    → (o ≡ some ni) ⊎ (o' ≡ some ni)
or_node-cases none o' h = inr h
or_node-cases (some x) o' h = inl h

some_same {ℓ} : {A : Type ℓ} {a b : A} → some a ≡ some b → a ≡ b
some_same h = cc

-- An endpoint that is in use: the url of the node, state 1, and the offset that it had.
abbrev pub set_up : Option NodeInfo → Option Endpoint → Option Endpoint
set_up none old = old
set_up (some ni) old = some (ni.url, 1, offset_of old)

visited-set_up :
    (o : Option NodeInfo) (old : Option Endpoint)
    → ((ni : NodeInfo) → o ≡ some ni → is_enabled ni ≡ true)
    → visited o old ≡ set_up o old
visited-set_up none old h = refl
visited-set_up (some ni) old h = rw (h ni refl) refl

-- A node of a filtered list passes the filter.
last_node-filter :
    (p : NodeInfo → Bool) (n : String) (nodes : List NodeInfo) (ni : NodeInfo)
    → last_node n (filter p nodes) ≡ some ni
    → p ni ≡ true
unfolding last_node
last_node-filter p n [] ni h = cc
last_node-filter p n (x ∷ xs) ni h = elim (Bool-cases (p x)) [
  | inr out ↦ last_node-filter p n xs ni (rw out at h)
  | inl passes ↦
      elim (or_node-cases (last_node n (filter p xs)) (if x.node_id == n then some x else none)
        (rw passes at h)) [
          | inl later ↦ last_node-filter p n xs ni later
          | inr here ↦ elim (Bool-cases (x.node_id == n)) [
            | inl same ↦ subst (λ z. p z ≡ true) (some_same (rw same at here)) passes
            | inr other ↦ cc (rw other at here)
          ]
        ]
]

-- A set-up that ends without an error leaves, for each queue that is named and each active
-- validator other than the node, a row with the url of the validator and the state 1 that keeps
-- its offset, which is 0 where there was no row. Every other row keeps its url, its state and its
-- offset, also that of a validator that is disabled.
pub init_client_for_every_queue_for_every_validator_lem :
    (cli : ValidatorCtClient) (node_id : String) (queue_names : List String) (t t' : DsetTable)
    → init_client_for_every_queue_for_every_validator cli node_id queue_names t ≡ (t', ok tt)
    → (q n : String)
    → endpoint_at q n t' ≡ (
        if has queue_names q
        then set_up (last_node n (get_all_validators_except_self cli node_id)) (endpoint_at q n t)
        else endpoint_at q n t)
unfolding init_client_for_every_queue_for_every_validator get_all_validators_except_self
init_client_for_every_queue_for_every_validator_lem cli node_id queue_names t t' h q n =
    let nodes : List NodeInfo = get_all_validators_except_self cli node_id in
    let (t1, u, checked, rest) =
      >>=-eq-ok (lift (guard (not (nat_beq (length queue_names) 0)) assertion_failed))
        (λ _. init_queues queue_names nodes) h in
    let start : t1 ≡ t = sym (ap (λ z. z.0) checked) in
    init_queues-endpoint queue_names nodes t1 t' rest q n
    ∙ rw start (
        ap (λ z. if has queue_names q then z else endpoint_at q n t)
          (visited-set_up (last_node n nodes) (endpoint_at q n t)
            (λ ni e. ground (arith, last_node-filter _ n (values cli.vnodes) ni e))))
