-- ===== src/StorageContractState/Notify.antt =====
-- What the listener is called with after the contract is read again.
use push_snode.Base.{
  ℕ, String, ◌≡◌, refl, ap, sym, ◌∙◌, true, false, List, [], ◌∷◌, Option, some, ok, ◌<◌, ◌^◌,
  nat_eq, string_eq, Option-cases, inl, inr,
}
use push_snode.Base.JsSet.{has, IsDistinct}
use push_snode.Base.JsMap.{JsMap, get, keys}
use push_snode.Base.Steps.{Step}
use push_snode.Utilz.StrUtil
use push_snode.StorageContractState.{
  StorageContractState, assign_shards, rebuild, reload_every_address, get_node_shards,
  notified_shards, notify_listener, with_state, reload_every_address_and_notify_listeners,
}
use push_snode.StorageContractState.Laws.{shards_or_empty, has_bit, reload_every_address_lem}

-- Only the two maps change.
reload_every_address-kept :
    (contract : String → ℕ) (addrs : List String) (st st' : StorageContractState)
    → reload_every_address contract addrs st ≡ some st'
    → (st'.use_signer ≡ st.use_signer) × (st'.node_address ≡ st.node_address)
unfolding reload_every_address rebuild
reload_every_address-kept contract addrs st st' h =
    elim (Option-cases (assign_shards contract addrs st.node_shard_map)) [
      | inl e ↦ cc (rw (reload_every_address, e) at h)
      | inr (m, e) ↦
          let same : ◌≡◌ {A = Option StorageContractState} (some (rebuild st m)) (some st') =
            rw (reload_every_address, e) at h in
          let is : rebuild st m ≡ st' = cc in
          (ap (λ t. t.use_signer) (sym is), ap (λ t. t.node_address) (sym is))
    ]

get_node_shards-some :
    (st : StorageContractState) (shards : List ℕ) (shard : ℕ)
    → StrUtil.is_empty st.node_address ≡ false
    → get st.node_shard_map st.node_address ≡ some shards
    → has shards shard ≡ true
    → get_node_shards st ≡ ok shards
unfolding get_node_shards has
get_node_shards-some st [] shard named found member = cc
get_node_shards-some st (x ∷ xs) shard named found member = rw (get_node_shards, named, found) refl

-- A node with a signer that reads its own mask again calls the listener once, and with it returns or throws,
-- when the mask has a bit among the first 32. The listener is given the shards of the node, which are the bits
-- of its mask, and the map of all nodes; it sees the new state. The masks have 32 bits, and the address of the
-- node is not empty and among those that are read.
pub reload_every_address_and_notify_listeners_lem :
    {S : Type 0} (handle_reshard : Option (List ℕ) → JsMap String (List ℕ) → Step S (Unit {0}))
    (contract : String → ℕ) (fits : (addr : String) → contract addr < 2 ^ 32) (addrs : List String)
    (st : StorageContractState) (s : S) (shard : ℕ)
    → IsDistinct (keys st.node_shard_map)
    → st.use_signer ≡ true
    → StrUtil.is_empty st.node_address ≡ false
    → has addrs st.node_address ≡ true
    → has_bit (contract st.node_address) shard ≡ true
    → (st' : StorageContractState) × (node_shards : List ℕ) × (reload_every_address contract addrs
          st
        ≡ some st')
      × ((k : ℕ) → has node_shards k ≡ has_bit (contract st.node_address) k)
      × (reload_every_address_and_notify_listeners handle_reshard contract addrs (st, s)
          ≡ some (with_state st' (handle_reshard (some node_shards) st'.node_shard_map s)))
unfolding reload_every_address_and_notify_listeners notified_shards
reload_every_address_and_notify_listeners_lem handle_reshard contract fits addrs st s shard distinct
      signer named read bit =
    let (st', e, d, inverse, bits) = reload_every_address_lem contract fits addrs st distinct in
    let (signs, here) = reload_every_address-kept contract addrs st st' e in
    let own : (k : ℕ)
        → has (shards_or_empty (get st'.node_shard_map st.node_address)) k
          ≡ has_bit (contract st.node_address) k =
      λ k. sym (inverse k st.node_address) ∙ bits k st.node_address read in
    elim (Option-cases (get st'.node_shard_map st.node_address)) [
      | inl nothing ↦
          let some_bit : has (shards_or_empty (get st'.node_shard_map st.node_address)) shard
              ≡ true =
            own shard ∙ bit in
          absurd (unfold has in cc (rw nothing at some_bit))
      | inr (node_shards, found) ↦
          let own' : (k : ℕ) → has node_shards k ≡ has_bit (contract st.node_address) k =
            λ k. ap (λ o. has (shards_or_empty o) k) (sym found) ∙ own k in
          let got : get_node_shards st' ≡ ok node_shards =
            get_node_shards-some st' node_shards shard (ap StrUtil.is_empty here ∙ named)
              (ap (get st'.node_shard_map) here ∙ found) (own' shard ∙ bit) in
          let notified : notified_shards st' ≡ ok (some node_shards) =
            rw (notified_shards, signs, signer, got) refl in
          (
            st',
            node_shards,
            e,
            own',
            rw (reload_every_address_and_notify_listeners, e)
                (ap (λ r. some (with_state st' (notify_listener handle_reshard st' r s))) notified),
          )
    ]
