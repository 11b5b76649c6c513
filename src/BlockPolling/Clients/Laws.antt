-- ===== src/BlockPolling/Clients/Laws.antt =====
-- Which clients there are, and what their rounds may change.
use push_snode.Base.{
  ℕ, ◌≡◌, refl, sym, ap, ◌∙◌, Bool, true, false, not, ◌||◌, List, [], ◌∷◌, ◌++◌, Bool-cases, inl,
  inr, All, filter, map, nat_eq, ◌==◌, ==_iff, ==_self, arith, if◌then◌else◌,
}
use mathlib.Core.List.{append_assoc, append-nil}
use push_snode.Base.JsSet.{has, has-filter, has-of_list, has-add_all}
use push_snode.Base.JsMap.{get-set}
use push_snode.SyncTable.{NodeSyncInfo, SyncDb}
use push_snode.StorageSyncClient.{StorageSyncClient}
use push_snode.BlockPolling.Clients.{
  ShardKey, number, text, shard_key_eq, get_node_pooling_info, add_total_shards, add_synced_shards,
  get_shards_that_needs_to_be_synced, client_for, NodeMap, clients_of, or_empty, add_client,
  add_clients, add_infos, construct_node_shard_map,
}

-- A number is not among texts.
has-map-text : (ids : List ℕ) (id : ℕ) → has (map text ids) (number id) ≡ false
unfolding has
has-map-text [] id = refl
has-map-text (i ∷ ids) id = has-map-text ids id

has-map-number : (ids : List ℕ) (id : ℕ) → has (map number ids) (number id) ≡ has ids id
unfolding has
has-map-number [] id = refl
has-map-number (i ∷ ids) id = ap (λ b. i == id || b) (has-map-number ids id)

has-add_synced_shards :
    (infos : List NodeSyncInfo) (known : List ShardKey) (id : ℕ)
    → has (add_synced_shards known infos) (number id) ≡ has known (number id)
unfolding add_synced_shards
has-add_synced_shards [] known id = refl
has-add_synced_shards (info ∷ infos) known id =
    has-add_synced_shards infos _ id
    ∙ has-add_all known (map text info.already_synced_shards) (number id)
    ∙ ground (arith, has-map-text info.already_synced_shards id)

-- Some row lists the shard.
abbrev pub is_listed : List NodeSyncInfo → ℕ → Bool
is_listed [] id = false
is_listed (info ∷ infos) id = has info.shard_ids id || is_listed infos id

has-add_total_shards :
    (infos : List NodeSyncInfo) (known : List ShardKey) (id : ℕ)
    → has (add_total_shards known infos) (number id) ≡ (has known (number id) || is_listed infos id)
unfolding add_total_shards
has-add_total_shards [] known id = ground arith
has-add_total_shards (info ∷ infos) known id =
    has-add_total_shards infos _ id
    ∙ ground (
      arith,
      has-add_all known (map number info.shard_ids) (number id),
      has-map-number info.shard_ids id,
    )

-- Every shard that is listed is taken for one to be synced, also where it is synced.
has-get_shards :
    (infos : List NodeSyncInfo) (id : ℕ)
    → has (get_shards_that_needs_to_be_synced infos) (number id) ≡ is_listed infos id
unfolding get_shards_that_needs_to_be_synced has add_synced_shards
has-get_shards infos id =
    has-of_list
      (filter (λ shard. not (has (add_synced_shards [] infos) shard)) (add_total_shards [] infos))
      (number id)
    ∙ has-filter (λ shard. not (has (add_synced_shards [] infos) shard)) (add_total_shards [] infos)
        (number id)
    ∙ ground (arith, has-add_total_shards infos [] id, has-add_synced_shards infos [] id)

-- The clients of a shard that a row asks for: one for each time that it lists the shard.
abbrev pub copies : ℕ → NodeSyncInfo → List ℕ → List StorageSyncClient
copies id info [] = []
copies id info (i ∷ ids) =
    let rest = copies id info ids in if i == id then client_for info ∷ rest else rest

abbrev pub wanted : ℕ → List NodeSyncInfo → List StorageSyncClient
wanted id [] = []
wanted id (info ∷ infos) = copies id info info.shard_ids ++ wanted id infos

module _ (shards_to_sync : List ShardKey) (id : ℕ) where
  abbrev IsToSync : ℕ → Type 0
  IsToSync i = has shards_to_sync (number i) ≡ true

  clients_of-add_client :
      (info : NodeSyncInfo) (i : ℕ) (m : NodeMap)
      → IsToSync i
      → clients_of (add_client shards_to_sync info i m) id
        ≡ clients_of m id ++ copies id info (i ∷ [])
  unfolding add_client
  clients_of-add_client info i m there =
      let new : List StorageSyncClient = clients_of m i ++ client_for info ∷ [] in
      rw (add_client, there)
        (ap or_empty (get-set m i id new) ∙ elim (Bool-cases (i == id)) [
          | inl same ↦
              rw same (ap (λ j. clients_of m j ++ client_for info ∷ []) ((==_iff i id).0 same))
          | inr other ↦ rw other (sym (append-nil (clients_of m id)))
        ])

  clients_of-add_clients :
      (info : NodeSyncInfo) (ids : List ℕ) (m : NodeMap)
      → All IsToSync ids
      → clients_of (add_clients shards_to_sync info ids m) id
        ≡ clients_of m id ++ copies id info ids
  unfolding add_clients
  clients_of-add_clients info [] m there = sym (append-nil (clients_of m id))
  clients_of-add_clients info (i ∷ ids) m (here, there) =
      clients_of-add_clients info ids (add_client shards_to_sync info i m) there
      ∙ ap (λ cs. cs ++ copies id info ids) (clients_of-add_client info i m here)
      ∙ append_assoc (clients_of m id) (copies id info (i ∷ [])) (copies id info ids)
      ∙ ap (λ cs. clients_of m id ++ cs) (ground arith)

  clients_of-add_infos :
      (infos : List NodeSyncInfo) (m : NodeMap)
      → All (λ (info : NodeSyncInfo). All IsToSync info.shard_ids) infos
      → clients_of (add_infos shards_to_sync infos m) id ≡ clients_of m id ++ wanted id infos
  unfolding add_infos
  clients_of-add_infos [] m there = sym (append-nil (clients_of m id))
  clients_of-add_infos (info ∷ infos) m (here, there) =
      clients_of-add_infos infos (add_clients shards_to_sync info info.shard_ids m) there
      ∙ ap (λ cs. cs ++ wanted id infos) (clients_of-add_clients info info.shard_ids m here)
      ∙ append_assoc (clients_of m id) (copies id info info.shard_ids) (wanted id infos)

-- Every shard of every row is among those to be synced.
each_listed :
    (p : ℕ → Bool) (ids : List ℕ)
    → ((i : ℕ) → has ids i ≡ true → p i ≡ true)
    → All (λ i. p i ≡ true) ids
unfolding has
each_listed p [] h = tt
each_listed p (i ∷ ids) h =
    (h i (ground (arith, ==_self i)), each_listed p ids (λ j q. h j (ground (arith, q))))

each_row :
    (p : ℕ → Bool) (infos : List NodeSyncInfo)
    → ((i : ℕ) → is_listed infos i ≡ true → p i ≡ true)
    → All (λ (info : NodeSyncInfo). All (λ i. p i ≡ true) info.shard_ids) infos
each_row p [] h = tt
each_row p (info ∷ infos) h = (
  each_listed p info.shard_ids (λ i q. h i (ground (arith, q))),
  each_row p infos (λ i q. h i (ground (arith, q))),
)

-- The map gets, under each shard, a client for each view that is being fetched and lists the shard, in
-- the order of the rows and after the clients that are there: no shard is left out for being synced.
pub construct_node_shard_map_lem :
    (db : SyncDb) (node_map : NodeMap) (shard_id : ℕ)
    → clients_of (construct_node_shard_map db node_map) shard_id
      ≡ clients_of node_map shard_id ++ wanted shard_id (get_node_pooling_info db)
unfolding construct_node_shard_map
construct_node_shard_map_lem db node_map shard_id =
    let infos : List NodeSyncInfo = get_node_pooling_info db in
    let to_sync : List ShardKey = get_shards_that_needs_to_be_synced infos in
    clients_of-add_infos to_sync shard_id infos node_map
      (each_row (λ i. has to_sync (number i)) infos (λ i q. has-get_shards infos i ∙ q))
