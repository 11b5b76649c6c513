-- ===== src/DbHelper/Laws.antt =====
-- The inbox table after a value is put: its key is there once, and no other key comes or goes.
use push_snode.Base.{
  ℕ, String, true, List, [], ◌∷◌, ◌++◌, Option, none, some, Result, subst, ok, throw, ◌≡◌, refl, ap,
  sym, ◌∙◌, Bool-cases, inl, inr, ◌==◌, nat_eq, string_eq, pair_eq,
}
use push_snode.Base.JsSet.{add, add-IsDistinct, has, IsDistinct}
use push_snode.Base.JsMap.{JsMap}
use push_snode.Ext.{Ext}
use push_snode.Proto.{Transaction, InitDid, WalletToEncDerivedKey}
use push_snode.Db.{Db, BlockRow, InboxRow, PushWalletsRow, PushKeysRow}
use push_snode.Transactions.{add_push_keys, add_push_wallets, insert_push_keys, insert_push_wallets}
use push_snode.Base.{◌>>◌ as both}
use push_snode.Base.Steps.{Keeps, Step, continue, return}
use push_snode.Transactions.{inserted_keys, inserted_wallets}
use push_snode.DbHelper.{
  wallet_row, keys_row, put_keys_and_wallets, push_did_from_master_public_key, inbox_key,
  inbox_keys, update_payload, upsert_inbox, inbox_row, add_all_wallets, array_to_map,
  put_init_did_transaction, index_transaction_category, put_value_in_storage_table,
}

keys-update_payload :
    (input : InboxRow) (rows : List InboxRow)
    → inbox_keys (update_payload input rows) ≡ inbox_keys rows
unfolding inbox_keys update_payload
keys-update_payload input [] = refl
keys-update_payload input (row ∷ rows) = elim (Bool-cases (inbox_key row == inbox_key input)) [
  | inl q ↦ rw q (ap (λ ks. inbox_key row ∷ ks) (keys-update_payload input rows))
  | inr q ↦ rw q (ap (λ ks. inbox_key row ∷ ks) (keys-update_payload input rows))
]

keys-append :
    (rows : List InboxRow) (input : InboxRow)
    → inbox_keys (rows ++ input ∷ []) ≡ inbox_keys rows ++ inbox_key input ∷ []
unfolding inbox_keys
keys-append [] input = refl
keys-append (row ∷ rows) input = ap (λ ks. inbox_key row ∷ ks) (keys-append rows input)

-- The keys are a set to which the key of the row is added.
pub keys-upsert_inbox :
    (input : InboxRow) (rows : List InboxRow)
    → inbox_keys (upsert_inbox input rows) ≡ add (inbox_keys rows) (inbox_key input)
unfolding upsert_inbox add
keys-upsert_inbox input rows = elim (Bool-cases (has (inbox_keys rows) (inbox_key input))) [
  | inl q ↦ rw q (keys-update_payload input rows)
  | inr q ↦ rw q (keys-append rows input)
]

-- The tables that indexing a transaction leaves alone.
pub record IsSameStore (db db' : Db) : Type 0 where
  pub same_blocks : db'.blocks ≡ db.blocks
  pub same_storage_node : db'.storage_node ≡ db.storage_node
  pub same_contract_shards : db'.contract_shards ≡ db.contract_shards

pub IsSameStore-trans : (a b c : Db) → IsSameStore a b → IsSameStore b c → IsSameStore a c
IsSameStore-trans a b c p q = record {
  same_blocks = q.same_blocks ∙ p.same_blocks;
  same_storage_node = q.same_storage_node ∙ p.same_storage_node;
  same_contract_shards = q.same_contract_shards ∙ p.same_contract_shards;
}

pub IsSameStore-refl : (db : Db) → IsSameStore db db
IsSameStore-refl db = record {
  same_blocks = refl;
  same_storage_node = refl;
  same_contract_shards = refl;
}

inserted_keys-IsSameStore :
    (db : Db) (r : Result (List PushKeysRow)) → IsSameStore db (inserted_keys db r)
inserted_keys-IsSameStore db (ok rows) = record {
  same_blocks = refl;
  same_storage_node = refl;
  same_contract_shards = refl;
}
inserted_keys-IsSameStore db (throw e) = IsSameStore-refl db

add_push_keys-IsSameStore :
    (input : PushKeysRow) (db : Db) → IsSameStore db (add_push_keys input db)
unfolding add_push_keys
add_push_keys-IsSameStore input db =
    inserted_keys-IsSameStore db (insert_push_keys input db.push_keys)

inserted_wallets-IsSameStore :
    (db : Db) (r : Result (List PushWalletsRow)) → IsSameStore db (inserted_wallets db r).0
inserted_wallets-IsSameStore db (ok rows) = record {
  same_blocks = refl;
  same_storage_node = refl;
  same_contract_shards = refl;
}
inserted_wallets-IsSameStore db (throw e) = IsSameStore-refl db

add_push_wallets-IsSameStore :
    (input : PushWalletsRow) (db : Db) → IsSameStore db (add_push_wallets input db).0
unfolding add_push_wallets
add_push_wallets-IsSameStore input db =
    inserted_wallets-IsSameStore db (insert_push_wallets input db.push_keys db.push_wallets)

-- The state after two steps.
pub continue-IsSameStore {ℓ κ} :
    {A : Type ℓ} {B : Type κ} (db : Db) (r : Db × Result A) (f : A → Step Db B)
    → IsSameStore db r.0
    → ((a : A) (t : Db) → IsSameStore t (f a t).0)
    → IsSameStore db (continue r f).0
continue-IsSameStore db (t, ok a) f p q = IsSameStore-trans db t (f a t).0 p (q a t)
continue-IsSameStore db (t, throw e) f p q = p

module _ (ext : Ext) where
  add_all_wallets-IsSameStore :
      (init_did : InitDid) (did : String) (m : JsMap String WalletToEncDerivedKey)
      (outcome : Result (Unit {0})) (db : Db)
      → IsSameStore db (add_all_wallets ext init_did did m outcome db).0
  unfolding add_all_wallets
  add_all_wallets-IsSameStore init_did did [] outcome db = IsSameStore-refl db
  add_all_wallets-IsSameStore init_did did ((wallet, value) ∷ m) outcome db =
      let r : Db × Result (Unit {0}) =
        add_push_wallets (wallet_row ext init_did did wallet value) db in
      IsSameStore-trans db r.0 _
        (add_push_wallets-IsSameStore (wallet_row ext init_did did wallet value) db)
        (add_all_wallets-IsSameStore init_did did m (both outcome r.1) r.0)

  put_keys_and_wallets-IsSameStore :
      (init_did : InitDid) (m : JsMap String WalletToEncDerivedKey) (db : Db)
      → IsSameStore db (put_keys_and_wallets ext init_did m db).0
  unfolding put_keys_and_wallets
  put_keys_and_wallets-IsSameStore init_did [] db = IsSameStore-refl db
  put_keys_and_wallets-IsSameStore init_did (entry ∷ m) db =
      let did : String = push_did_from_master_public_key ext init_did.masterpubkey in
      let db' : Db = add_push_keys (keys_row ext init_did) db in
      continue-IsSameStore db (add_all_wallets ext init_did did (entry ∷ m) (ok tt) db')
        (λ _. return true)
        (IsSameStore-trans db db' _ (add_push_keys-IsSameStore (keys_row ext init_did) db)
          (add_all_wallets-IsSameStore init_did did (entry ∷ m) (ok tt) db'))
        (λ _ t. IsSameStore-refl t)

  index_transaction_category-IsSameStore :
      (ns : String) (tx : Transaction) (db : Db)
      → IsSameStore db (index_transaction_category ext ns tx db).0
  unfolding index_transaction_category put_init_did_transaction
  index_transaction_category-IsSameStore ns tx db = elim (Bool-cases (ns == "INIT_DID")) [
    | inl q ↦ rw q (
        continue-IsSameStore db (db, ext.deserialize_init_did tx.payload) _ (IsSameStore-refl db)
          (λ init_did t.
            continue-IsSameStore t (put_init_did_transaction ext init_did t) _
              (put_keys_and_wallets-IsSameStore init_did
                (array_to_map init_did.wallettoencderivedkey []) t)
              (λ _ u. IsSameStore-refl u)))
    | inr q ↦ rw q (IsSameStore-refl db)
  ]

  -- Putting a value adds its key to the inboxes, and the blocks stay as they are.
  pub put_value_in_storage_table-keys :
      (ns : String) (shard_id : ℕ) (ns_index : String) (ts : ℕ) (skey : String) (tx : Transaction)
      (db db' : Db) (r : Result (Unit {0}))
      → put_value_in_storage_table ext ns (some shard_id) ns_index ts skey tx db ≡ (db', r)
      → (inbox_keys db'.storage_node
          ≡ add (inbox_keys db.storage_node) (ns, (shard_id, (ns_index, skey))))
        × (db'.blocks ≡ db.blocks)
  unfolding put_value_in_storage_table
  put_value_in_storage_table-keys ns shard_id ns_index ts skey tx db db' r h =
      let row : InboxRow = inbox_row ext ns shard_id ns_index ts skey tx in
      let mid : Db = record db { storage_node = upsert_inbox row db.storage_node } in
      let same : IsSameStore mid (index_transaction_category ext ns tx mid).0 =
        index_transaction_category-IsSameStore ns tx mid in
      let e : (index_transaction_category ext ns tx mid).0 ≡ db' = ap (λ z. z.0) h in
      let same' : IsSameStore mid db' = subst (IsSameStore mid) e same in
      (
        ap inbox_keys same'.same_storage_node ∙ keys-upsert_inbox row db.storage_node,
        same'.same_blocks,
      )

  pub put_value_in_storage_table-blocks :
      (blocks : List BlockRow) (ns : String) (shard : Option ℕ) (ns_index : String) (ts : ℕ)
      (skey : String) (tx : Transaction)
      → Keeps
          (λ db. db.blocks ≡ blocks)
          (put_value_in_storage_table ext ns shard ns_index ts skey tx)
  unfolding put_value_in_storage_table
  put_value_in_storage_table-blocks blocks ns none ns_index ts skey tx db h = h
  put_value_in_storage_table-blocks blocks ns (some shard) ns_index ts skey tx db h =
      (put_value_in_storage_table-keys ns shard ns_index ts skey tx db _ _ refl).1 ∙ h

  -- The primary key of `storage_node`.
  pub put_value_in_storage_table-IsDistinct :
      (ns : String) (shard : Option ℕ) (ns_index : String) (ts : ℕ) (skey : String)
      (tx : Transaction)
      → Keeps
          (λ db. IsDistinct (inbox_keys db.storage_node))
          (put_value_in_storage_table ext ns shard ns_index ts skey tx)
  unfolding put_value_in_storage_table
  put_value_in_storage_table-IsDistinct ns none ns_index ts skey tx db h = h
  put_value_in_storage_table-IsDistinct ns (some shard) ns_index ts skey tx db h =
      subst IsDistinct
        (sym (put_value_in_storage_table-keys ns shard ns_index ts skey tx db _ _ refl).0)
        (add-IsDistinct (inbox_keys db.storage_node) (ns, (shard, (ns_index, skey))) h)
