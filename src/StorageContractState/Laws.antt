-- ===== src/StorageContractState/Laws.antt =====
-- The map from shards to nodes is the inverse of the map from nodes to shards.
use push_snode.Base.{
  ℕ, String, ◌≡◌, refl, ap, ◌∙◌, Bool, true, false, ◌&&◌, ◌||◌, List, [], ◌∷◌, Option, none, some,
  arith, ◌==◌, ==_iff, nat_eq, string_eq, Bool-cases, inl, inr,
}
use push_snode.Base.JsSet.{has, add, has-add, IsDistinct}
use push_snode.Base.{ltb, nat_beq, ◌<◌, ◌^◌}
use push_snode.Utilz.Coll.{array_to_set}
use push_snode.Utilz.BitUtil.Positions.{get_bit}
use push_snode.Utilz.BitUtil.Positions.Laws.{has-bits_to_positions}
use push_snode.Base.JsSet.{of_list, has-of_list}
use push_snode.Base.JsMap.{set-IsDistinct, JsMap, get, set, keys, get-set}
use push_snode.StorageContractState.{
  StorageContractState, nodes_or_empty, assign_shards, add_node, add_nodes,
  get_storage_nodes_for_shard, reload_every_address, rebuild,
}

abbrev pub shards_or_empty : Option (List ℕ) → List ℕ
shards_or_empty none = []
shards_or_empty (some shards) = shards

-- A node is among the nodes of a shard.
abbrev serves : JsMap ℕ (List String) → ℕ → String → Bool
serves m shard node = has (nodes_or_empty (get m shard)) node

-- Some entry of the map gives the shard to the node.
assigned : JsMap String (List ℕ) → ℕ → String → Bool
assigned [] shard node = false
assigned ((node_addr, shards) ∷ m) shard node =
    (node_addr == node && has shards shard) || assigned m shard node

serves-set :
    (m : JsMap ℕ (List String)) (s shard : ℕ) (n node : String)
    → serves (set m s (add (nodes_or_empty (get m s)) n)) shard node
      ≡ (serves m shard node || (s == shard && n == node))
serves-set m s shard n node =
    rw (get-set m s shard (add (nodes_or_empty (get m s)) n)) (elim (Bool-cases (s == shard)) [
      | inl q ↦
          let e : s ≡ shard = (==_iff s shard).0 q in
          ground (arith, has-add (nodes_or_empty (get m s)) n node, ap (λ z. serves m z node) e)
      | inr q ↦ rw q (ground arith)
    ])

serves-add_node :
    (n : String) (shards : List ℕ) (m : JsMap ℕ (List String)) (shard : ℕ) (node : String)
    → serves (add_node n shards m) shard node
      ≡ (serves m shard node || (n == node && has shards shard))
unfolding add_node has
serves-add_node n [] m shard node = ground arith
serves-add_node n (s ∷ ss) m shard node = ground (
  arith,
  serves-add_node n ss (set m s (add (nodes_or_empty (get m s)) n)) shard node,
  serves-set m s shard n node,
)

serves-add_nodes :
    (nodes : JsMap String (List ℕ)) (m : JsMap ℕ (List String)) (shard : ℕ) (node : String)
    → serves (add_nodes nodes m) shard node ≡ (serves m shard node || assigned nodes shard node)
unfolding add_nodes assigned
serves-add_nodes [] m shard node = ground arith
serves-add_nodes ((n, ss) ∷ nodes) m shard node =
    ground (
      arith,
      serves-add_nodes nodes (add_node n ss m) shard node,
      serves-add_node n ss m shard node,
    )

assigned-missing :
    (m : JsMap String (List ℕ)) (shard : ℕ) (node : String)
    → has (keys m) node ≡ false
    → assigned m shard node ≡ false
unfolding assigned keys has
assigned-missing [] shard node h = refl
assigned-missing ((n, ss) ∷ m) shard node h = ground (arith, assigned-missing m shard node)

assigned-get :
    (m : JsMap String (List ℕ)) (shard : ℕ) (node : String)
    → IsDistinct (keys m)
    → assigned m shard node ≡ has (shards_or_empty (get m node)) shard
unfolding assigned keys get has
assigned-get [] shard node d = refl
assigned-get ((n, ss) ∷ m) shard node d = elim (Bool-cases (n == node)) [
  | inl q ↦
      let missing : assigned m shard n ≡ false = assigned-missing m shard n d.0 in
      let e : assigned m shard n ≡ assigned m shard node =
        ap (assigned m shard) ((==_iff n node).0 q) in
      rw q (ground (arith, missing, e))
  | inr q ↦ rw q (assigned-get m shard node d.1)
]

-- The bit of the mask that the contract keeps for a node.
abbrev pub has_bit : ℕ → ℕ → Bool
has_bit mask p = ltb p 32 && nat_beq (get_bit mask p) 1

module _ (contract : String → ℕ) (fits : (a : String) → contract a < 2 ^ 32) where
  assign_shards-some :
      (addrs : List String) (m : JsMap String (List ℕ))
      → IsDistinct (keys m)
      → (m' : JsMap String (List ℕ)) × (assign_shards contract addrs m ≡ some m')
        × IsDistinct (keys m')
        × ((node : String) → has addrs node ≡ false → get m' node ≡ get m node)
        × ((node : String) (p : ℕ)
            → has addrs node ≡ true
            → has (shards_or_empty (get m' node)) p ≡ has_bit (contract node) p)
  unfolding assign_shards has array_to_set
  assign_shards-some [] m d = (m, refl, d, λ node h. refl, λ node p h. absurd (ground arith))
  assign_shards-some (a ∷ as') m d =
      let (r, e, bits) = has-bits_to_positions (contract a) (fits a) in
      let next : JsMap String (List ℕ) = set m a (of_list r) in
      let (m', e', d', same, found) =
        assign_shards-some as' next (set-IsDistinct m a (of_list r) d) in
      (
        m',
        rw (e, assign_shards) e',
        d',
        λ node h.
            let off : (a == node) ≡ false = ground arith in
            same node (ground arith) ∙ get-set m a node (of_list r) ∙ rw off refl,
        λ node p h. elim (Bool-cases (has as' node)) [
          | inl q ↦ found node p q
          | inr q ↦
              let here : (a == node) ≡ true = ground arith in
              let got : get m' node ≡ some (of_list r) =
                same node q ∙ get-set m a node (of_list r) ∙ rw here refl in
              rw got (
                has-of_list r p
                ∙ bits p
                ∙ ap (λ z. has_bit (contract z) p) ((==_iff a node).0 here))
        ],
      )

  -- When the masks of the contract have 32 bits, reading it again ends, and the two maps are
  -- rebuilt. In the new state a node is among the nodes of a shard exactly when the shard is among
  -- the shards of the node, and for a node that was read exactly when the bit of the shard is set
  -- in its mask.
  pub reload_every_address_lem :
      (addrs : List String) (st : StorageContractState)
      → IsDistinct (keys st.node_shard_map)
      → (st' : StorageContractState) × (reload_every_address contract addrs st ≡ some st')
        × IsDistinct (keys st'.node_shard_map)
        × ((shard : ℕ) (node : String)
            → has (nodes_or_empty (get_storage_nodes_for_shard st' shard)) node
              ≡ has (shards_or_empty (get st'.node_shard_map node)) shard)
        × ((shard : ℕ) (node : String)
            → has addrs node ≡ true
            → has (nodes_or_empty (get_storage_nodes_for_shard st' shard)) node
              ≡ has_bit (contract node) shard)
  unfolding reload_every_address rebuild get_storage_nodes_for_shard get has
  reload_every_address_lem addrs st d =
      let (m, e, d', same, found) = assign_shards-some addrs st.node_shard_map d in
      let inverse : (shard : ℕ) (node : String)
          → has (nodes_or_empty (get (add_nodes m []) shard)) node
            ≡ has (shards_or_empty (get m node)) shard =
        λ shard node. serves-add_nodes m [] shard node ∙ assigned-get m shard node d' in
      (
        rebuild st m,
        rw (e, reload_every_address) refl,
        d',
        inverse,
        λ shard node h. inverse shard node ∙ found node shard h,
      )
