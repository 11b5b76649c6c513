-- ===== src/SnodeInfoUtil/Laws.antt =====
-- Each other node is asked for exactly the shards that it has.
use push_snode.Base.{
  ℕ, String, ◌≡◌, refl, ap, subst, ◌∙◌, Bool, true, false, not, ◌&&◌, ◌||◌, List, [], ◌∷◌, Option,
  none, some, ◌==◌, ==_iff, if◌then◌else◌, arith, Bool-cases, inl, inr, string_eq, nat_eq,
}
use push_snode.Base.JsSet.{has, add, has-add}
use push_snode.Base.JsMap.{JsMap, get, set, get-set}
use push_snode.StorageContractState.{
  StorageContractState, nodes_or_empty, get_storage_nodes_for_shard,
}
use push_snode.SnodeInfoUtil.{add_shard, add_nodes_of_shard, add_shards, get_node_id_from_shard_id}

abbrev has_in : Option (List ℕ) → ℕ → Bool
has_in none shard = false
has_in (some shards) shard = has shards shard

-- The set of the node has the shard.
abbrev pub is_asked : JsMap String (List ℕ) → String → ℕ → Bool
is_asked node_ids node shard = has_in (get node_ids node) shard

is_asked-set :
    (m : JsMap String (List ℕ)) (node : String) (shards : List ℕ) (n : String) (s : ℕ)
    → is_asked (set m node shards) n s ≡ (if node == n then has shards s else is_asked m n s)
is_asked-set m node shards n s = elim (Bool-cases (node == n)) [
  | inl q ↦ rw (get-set m node n shards, q) refl
  | inr q ↦ rw (get-set m node n shards, q) refl
]

is_asked-add_shard :
    (shard_id : ℕ) (node : String) (node_ids : JsMap String (List ℕ)) (n : String) (s : ℕ)
    → is_asked (add_shard shard_id node node_ids) n s
      ≡ (is_asked node_ids n s || ((node == n) && (shard_id == s)))
unfolding add_shard has
is_asked-add_shard shard_id node node_ids n s = by_entry (get node_ids node) refl
  where
    by_entry :
        (o : Option (List ℕ))
        → get node_ids node ≡ o
        → is_asked (add_shard shard_id node node_ids) n s
          ≡ (is_asked node_ids n s || ((node == n) && (shard_id == s)))
    by_entry none e =
        let here : (node == n) ≡ true → get node_ids n ≡ none =
          λ q. subst (λ k. get node_ids k ≡ none) ((==_iff node n).0 q) e in
        rw (add_shard, e)
          (is_asked-set node_ids node (shard_id ∷ []) n s ∙ elim (Bool-cases (node == n)) [
            | inl q ↦ rw (q, here q) (ground arith)
            | inr q ↦ rw q (ground arith)
          ])
    by_entry (some shards) e =
        let here : (node == n) ≡ true → get node_ids n ≡ some shards =
          λ q. subst (λ k. get node_ids k ≡ some shards) ((==_iff node n).0 q) e in
        rw (add_shard, e)
          (is_asked-set node_ids node (add shards shard_id) n s ∙ elim (Bool-cases (node == n)) [
            | inl q ↦ rw (q, here q) (has-add shards shard_id s)
            | inr q ↦ rw q (ground arith)
          ])

is_asked-add_nodes :
    (self : String) (shard_id : ℕ) (nodes : List String) (node_ids : JsMap String (List ℕ))
    (n : String) (s : ℕ)
    → is_asked (add_nodes_of_shard self shard_id nodes node_ids) n s
      ≡ (is_asked node_ids n s || (has nodes n && not (n == self) && (shard_id == s)))
unfolding add_nodes_of_shard has
is_asked-add_nodes self shard_id [] node_ids n s = ground arith
is_asked-add_nodes self shard_id (node ∷ nodes) node_ids n s = elim (Bool-cases (node == self)) [
  | inl q ↦ rw q (
      ground (
        arith,
        is_asked-add_nodes self shard_id nodes node_ids n s,
        ==_iff node self,
        ==_iff node n,
        ==_iff n self,
      ))
  | inr q ↦ rw q (
      ground (
        arith,
        is_asked-add_nodes self shard_id nodes (add_shard shard_id node node_ids) n s,
        is_asked-add_shard shard_id node node_ids n s,
        ==_iff node self,
        ==_iff node n,
        ==_iff n self,
      ))
]

abbrev nodes_of : StorageContractState → ℕ → List String
nodes_of st s = nodes_or_empty (get_storage_nodes_for_shard st s)

abbrev pub has_node : StorageContractState → ℕ → String → Bool
has_node st s n = has (nodes_of st s) n

is_asked-add_shards :
    (st : StorageContractState) (shards : List ℕ) (node_ids : JsMap String (List ℕ)) (n : String)
    (s : ℕ)
    → is_asked (add_shards st shards node_ids) n s
      ≡ (is_asked node_ids n s || (has shards s && has_node st s n && not (n == st.node_address)))
unfolding add_shards has
is_asked-add_shards st [] node_ids n s = ground arith
is_asked-add_shards st (x ∷ xs) node_ids n s =
    is_asked-add_shards st xs (add_nodes_of_shard st.node_address x (nodes_of st x) node_ids) n s
    ∙ elim (Bool-cases (x == s)) [
      | inl q ↦
          let here : has (nodes_of st x) n ≡ has_node st s n =
            ap (λ k. has_node st k n) ((==_iff x s).0 q) in
          ground (arith, is_asked-add_nodes st.node_address x (nodes_of st x) node_ids n s, here, q)
      | inr q ↦ ground (arith, is_asked-add_nodes st.node_address x (nodes_of st x) node_ids n s, q)
    ]

-- The set of shards that `getNodeIdFromShardId` collects for a node has a shard exactly when the shard
-- is among those asked for, the node is among the nodes of the shard, and the node is not this one.
pub is_asked-get_node_id_from_shard_id :
    (st : StorageContractState) (shards : List ℕ) (node : String) (shard : ℕ)
    → is_asked (get_node_id_from_shard_id st shards) node shard
      ≡ (has shards shard && has_node st shard node && not (node == st.node_address))
unfolding get_node_id_from_shard_id get
is_asked-get_node_id_from_shard_id st shards node shard =
    is_asked-add_shards st shards [] node shard
