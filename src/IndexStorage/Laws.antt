-- ===== src/IndexStorage/Laws.antt =====
-- What unpacking a block adds to the inboxes.
use push_snode.Base.{
  Eq, subst, not, ◌||◌, nat_beq, length, arith, ℕ, String, true, false, List, [], ◌∷◌, ◌++◌, Option,
  none, some, Result, ok, throw, ◌≡◌, refl, ap, sym, ◌∙◌, Bool-cases, inl, inr, if◌then◌else◌,
  nat_eq, string_eq, pair_eq,
}
use push_snode.Base.JsSet.{has, add, add_all}
use push_snode.Base.Steps.{Step, continue, return, lift, >>=-eq-ok, Keeps, >>=-Keeps}
use push_snode.Ext.{Ext}
use push_snode.Proto.{Transaction, TransactionObj, Block}
use push_snode.Db.{Db}
use push_snode.Utilz.Coll.{intersect_set}
use push_snode.BlockUtil.Shards.{calculate_affected_shard}
use push_snode.StorageContractState.{StorageContractState, get_node_shards}
use push_snode.DbHelper.{InboxKey, inbox_keys, hash_tx_as_hex, put_value_in_storage_table}
use push_snode.DbHelper.Laws.{put_value_in_storage_table-keys}
use push_snode.IndexStorage.{
  calculate_recipients, is_skipped, put_payload_to_inbox, unpack_wallet, unpack_tx, unpack_wallets,
  unpack_txs, unpack_block_to_inboxes,
}

add_all-append {ℓ} :
    {A : Type ℓ} ⦃e : Eq A⦄ (s xs ys : List A) → add_all s (xs ++ ys) ≡ add_all (add_all s xs) ys
unfolding add_all
add_all-append s [] ys = refl
add_all-append s (x ∷ xs) ys = add_all-append (add s x) xs ys

module _ (ext : Ext) (shard_count : ℕ) (shards_to_process : List ℕ) where
  -- The key of a transaction in the inbox of a wallet, unless the wallet is skipped.
  wallet_key : Transaction → String → Result (Option ℕ) → List InboxKey
  wallet_key tx wallet (throw e) = []
  wallet_key tx wallet (ok none) = []
  wallet_key tx wallet (ok (some shard)) =
      if nat_beq (length shards_to_process) 0 || has shards_to_process shard
      then (tx.category, (shard, (wallet, hash_tx_as_hex ext (ext.serialize_tx tx)))) ∷ []
      else []

  pub wallet_keys : Transaction → List String → List InboxKey
  unfolding wallet_key
  wallet_keys tx [] = []
  wallet_keys tx (wallet ∷ wallets) =
      wallet_key tx wallet (calculate_affected_shard ext wallet shard_count)
      ++ wallet_keys tx wallets

  abbrev tx_keys : Option Transaction → List InboxKey
  tx_keys none = []
  tx_keys (some tx) = wallet_keys tx (tx.recipients ++ tx.sender ∷ [])

  -- The keys that a block is unpacked to.
  pub block_keys : List TransactionObj → List InboxKey
  unfolding wallet_keys
  block_keys [] = []
  block_keys (o ∷ os) = tx_keys o.tx ++ block_keys os

  in_shards :
      (shard : ℕ)
      → is_skipped shards_to_process (some shard)
        ≡ not (nat_beq (length shards_to_process) 0 || has shards_to_process shard)
  unfolding is_skipped
  in_shards shard = ground arith

  -- The keys are added to those of the inboxes, and the blocks are the same.
  abbrev IsUnpacked : List InboxKey → Db → Db → Type 0
  IsUnpacked ks db db' =
      (inbox_keys db'.storage_node ≡ add_all (inbox_keys db.storage_node) ks)
      × (db'.blocks ≡ db.blocks)

  IsUnpacked-append :
      (ks ls : List InboxKey) (a b c : Db)
      → IsUnpacked ks a b
      → IsUnpacked ls b c
      → IsUnpacked (ks ++ ls) a c
  IsUnpacked-append ks ls a b c (p, p') (q, q') = (
    q ∙ ap (λ s. add_all s ls) p ∙ sym (add_all-append (inbox_keys a.storage_node) ks ls),
    q' ∙ p',
  )

  put_IsUnpacked :
      (tx : Transaction) (wallet : String) (ts : ℕ) (shard : Option ℕ) (db db' : Db)
      → is_skipped shards_to_process shard ≡ false
      → put_payload_to_inbox ext tx.category shard wallet ts tx db ≡ (db', ok tt)
      → IsUnpacked (wallet_key tx wallet (ok shard)) db db'
  unfolding wallet_key put_payload_to_inbox add_all put_value_in_storage_table
  put_IsUnpacked tx wallet ts none db db' q h = cc
  put_IsUnpacked tx wallet ts (some shard) db db' q h =
      let within : (nat_beq (length shards_to_process) 0 || has shards_to_process shard) ≡ true =
        ground (arith, in_shards shard) in
      rw within
        (put_value_in_storage_table-keys ext tx.category shard wallet ts _ tx db db' (ok tt) h)

  unpack_wallet_lem :
      (ts : ℕ) (tx : Transaction) (wallet : String) (db db' : Db)
      → unpack_wallet ext shard_count shards_to_process ts tx wallet db ≡ (db', ok tt)
      → IsUnpacked (wallet_key tx wallet (calculate_affected_shard ext wallet shard_count)) db db'
  unfolding unpack_wallet wallet_key add_all
  unpack_wallet_lem ts tx wallet db db' h =
      split (calculate_affected_shard ext wallet shard_count) h
    where
      put : Option ℕ → Step Db (Unit {0})
      put shard =
          if is_skipped shards_to_process shard
          then return tt
          else put_payload_to_inbox ext tx.category shard wallet ts tx

      split :
          (r : Result (Option ℕ))
          → continue (db, r) put ≡ (db', ok tt)
          → IsUnpacked (wallet_key tx wallet r) db db'
      split (throw e) k = cc
      split (ok shard) k = elim (Bool-cases (is_skipped shards_to_process shard)) [
        | inl q ↦
            let e : db ≡ db' = ap (λ z. z.0) (rw q at k) in
            subst (IsUnpacked (wallet_key tx wallet (ok shard)) db) e (skipped shard q)
        | inr q ↦ put_IsUnpacked tx wallet ts shard db db' q (rw q at k)
      ]
        where
          skipped :
              (shard : Option ℕ)
              → is_skipped shards_to_process shard ≡ true
              → IsUnpacked (wallet_key tx wallet (ok shard)) db db
          skipped none q = (refl, refl)
          skipped (some s) q =
              let outside : (nat_beq (length shards_to_process) 0 || has shards_to_process s)
                  ≡ false =
                ground (arith, in_shards s) in
              rw outside ((refl, refl))

  unpack_wallets_lem :
      (ts : ℕ) (tx : Transaction) (wallets : List String) (db db' : Db)
      → unpack_wallets ext shard_count shards_to_process ts tx wallets db ≡ (db', ok tt)
      → IsUnpacked (wallet_keys tx wallets) db db'
  unfolding unpack_wallets wallet_keys add_all
  unpack_wallets_lem ts tx [] db db' h = subst (IsUnpacked [] db) (ap (λ z. z.0) h) ((refl, refl))
  unpack_wallets_lem ts tx (wallet ∷ wallets) db db' h =
      let (t, u, q, k) =
        >>=-eq-ok (unpack_wallet ext shard_count shards_to_process ts tx wallet)
          (λ _. unpack_wallets ext shard_count shards_to_process ts tx wallets) h in
      IsUnpacked-append (wallet_key tx wallet (calculate_affected_shard ext wallet shard_count))
        (wallet_keys tx wallets) db t db' (unpack_wallet_lem ts tx wallet db t q)
        (unpack_wallets_lem ts tx wallets t db' k)

  unpack_tx_lem :
      (ts : ℕ) (tx : Option Transaction) (db db' : Db)
      → unpack_tx ext shard_count shards_to_process ts tx db ≡ (db', ok tt)
      → IsUnpacked (tx_keys tx) db db'
  unfolding unpack_tx calculate_recipients
  unpack_tx_lem ts none db db' h = cc
  unpack_tx_lem ts (some tx) db db' h = unpack_wallets_lem ts tx (calculate_recipients tx) db db' h

  unpack_txs_lem :
      (ts : ℕ) (txobj : List TransactionObj) (db db' : Db)
      → unpack_txs ext shard_count shards_to_process ts txobj db ≡ (db', ok tt)
      → IsUnpacked (block_keys txobj) db db'
  unfolding unpack_txs block_keys add_all
  unpack_txs_lem ts [] db db' h = subst (IsUnpacked [] db) (ap (λ z. z.0) h) ((refl, refl))
  unpack_txs_lem ts (o ∷ os) db db' h =
      let (t, u, q, k) =
        >>=-eq-ok (unpack_tx ext shard_count shards_to_process ts o.tx)
          (λ _. unpack_txs ext shard_count shards_to_process ts os) h in
      IsUnpacked-append (tx_keys o.tx) (block_keys os) db t db' (unpack_tx_lem ts o.tx db t q)
        (unpack_txs_lem ts os t db' k)

module _ {ℓ} (ext : Ext) (P : Db → Type ℓ) where
  abbrev pub PutKeeps : Type ℓ
  PutKeeps =
      (ns : String) (shard : Option ℕ) (ns_index : String) (ts : ℕ) (skey : String)
      (tx : Transaction)
      → Keeps P (put_value_in_storage_table ext ns shard ns_index ts skey tx)

  module _ (put : PutKeeps) (shard_count : ℕ) (shards_to_process : List ℕ) (ts : ℕ) where
    unpack_wallet-Keeps :
        (tx : Transaction) (wallet : String)
        → Keeps P (unpack_wallet ext shard_count shards_to_process ts tx wallet)
    unfolding unpack_wallet put_payload_to_inbox
    unpack_wallet-Keeps tx wallet =
        >>=-Keeps P (lift (calculate_affected_shard ext wallet shard_count)) _ (λ db p. p)
          (λ shard db p. elim (Bool-cases (is_skipped shards_to_process shard)) [
            | inl q ↦ rw q p
            | inr q ↦
                rw q (
                  put tx.category shard wallet ts (hash_tx_as_hex ext (ext.serialize_tx tx)) tx db
                    p)
          ])

    unpack_wallets-Keeps :
        (tx : Transaction) (wallets : List String)
        → Keeps P (unpack_wallets ext shard_count shards_to_process ts tx wallets)
    unfolding unpack_wallets
    unpack_wallets-Keeps tx [] = λ db p. p
    unpack_wallets-Keeps tx (wallet ∷ wallets) =
        >>=-Keeps P (unpack_wallet ext shard_count shards_to_process ts tx wallet)
          (λ _. unpack_wallets ext shard_count shards_to_process ts tx wallets)
          (unpack_wallet-Keeps tx wallet) (λ _. unpack_wallets-Keeps tx wallets)

    unpack_tx-Keeps :
        (tx : Option Transaction) → Keeps P (unpack_tx ext shard_count shards_to_process ts tx)
    unfolding unpack_tx
    unpack_tx-Keeps none = λ db p. p
    unpack_tx-Keeps (some tx) = unpack_wallets-Keeps tx (calculate_recipients tx)

    unpack_txs-Keeps :
        (txobj : List TransactionObj)
        → Keeps P (unpack_txs ext shard_count shards_to_process ts txobj)
    unfolding unpack_txs
    unpack_txs-Keeps [] = λ db p. p
    unpack_txs-Keeps (o ∷ os) =
        >>=-Keeps P (unpack_tx ext shard_count shards_to_process ts o.tx)
          (λ _. unpack_txs ext shard_count shards_to_process ts os) (unpack_tx-Keeps o.tx)
          (λ _. unpack_txs-Keeps os)

  -- Whatever putting a value keeps, unpacking a block keeps, also when it throws.
  pub unpack_block_to_inboxes-Keeps :
      PutKeeps
      → (st : StorageContractState) (mb : Block) (shard_set : List ℕ)
      → Keeps P (unpack_block_to_inboxes ext st mb shard_set)
  unfolding unpack_block_to_inboxes
  unpack_block_to_inboxes-Keeps put st mb shard_set =
      >>=-Keeps P (lift (get_node_shards st)) _ (λ db p. p)
        (λ node_shards.
          unpack_txs-Keeps put st.shard_count (intersect_set shard_set node_shards) mb.ts mb.txobj)

-- A block that is unpacked without an error adds to the inboxes the key of each of its transactions
-- for each of its wallets whose shard is among those that the block and the node have in common, or
-- for each wallet that has a shard, where they have none in common. No other key comes or goes.
pub unpack_block_to_inboxes-keys :
    (ext : Ext) (st : StorageContractState) (mb : Block) (shard_set node_shards : List ℕ)
    (db db' : Db)
    → get_node_shards st ≡ ok node_shards
    → unpack_block_to_inboxes ext st mb shard_set db ≡ (db', ok tt)
    → (inbox_keys db'.storage_node
        ≡ add_all
            (inbox_keys db.storage_node)
            (block_keys ext st.shard_count (intersect_set shard_set node_shards) mb.txobj))
      × (db'.blocks ≡ db.blocks)
unfolding unpack_block_to_inboxes
unpack_block_to_inboxes-keys ext st mb shard_set node_shards db db' e h =
    unpack_txs_lem ext st.shard_count (intersect_set shard_set node_shards) mb.ts mb.txobj db db'
      (rw e at h)
