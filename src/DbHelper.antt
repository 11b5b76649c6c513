-- ===== src/DbHelper.antt =====
-- helpers/dbHelper.ts: the inboxes of the wallets, and what is indexed from a transaction.
pub mod Laws
pub mod Inbox
pub mod AccountInfo
pub mod Lookup
use push_snode.Base.{
  ℕ, String, Bool, true, false, List, [], ◌∷◌, ◌++◌, Option, none, some, Result, ok, throw,
  not_null_violation, if◌then◌else◌, ◌==◌, string_eq, nat_eq, pair_eq, map,
}
use push_snode.Base.JsSet.{has}
use push_snode.Base.JsMap.{JsMap, set}
use push_snode.Base.Steps.{Step, continue, return, lift, write, ◌>>=◌, ◌>>◌}
use push_snode.Base.{◌>>◌ as both}
use Prim.Native.String.{◌++◌ as string_append}
use push_snode.Ext.{Ext}
use push_snode.Proto.{Transaction, InitDid, WalletToEncDerivedKey}
use push_snode.Utilz.BitUtil.Hex.{bytes_to_base16}
use push_snode.Db.{Db, InboxRow, InboxPayload, PushKeysRow, PushWalletsRow}
use push_snode.Transactions.{add_push_keys, add_push_wallets}

-- `namespace`, `namespace_shard_id`, `namespace_id`, `skey`: the primary key of `storage_node`
abbrev pub InboxKey : Type 0
InboxKey = String × (ℕ × (String × String))

abbrev pub inbox_key : InboxRow → InboxKey
inbox_key row = (row.namespace, (row.namespace_shard_id, (row.namespace_id, row.skey)))

unfoldable pub inbox_keys : List InboxRow → List InboxKey
inbox_keys [] = []
inbox_keys (row ∷ rows) = inbox_key row ∷ inbox_keys rows

-- `ON CONFLICT ... DO UPDATE SET payload = $6`
pub update_payload : InboxRow → List InboxRow → List InboxRow
update_payload input [] = []
update_payload input (row ∷ rows) =
    (if inbox_key row == inbox_key input then record row { payload = input.payload } else row)
    ∷ update_payload input rows

unfoldable pub upsert_inbox : InboxRow → List InboxRow → List InboxRow
unfolding inbox_keys update_payload
upsert_inbox input rows =
    if has (inbox_keys rows) (inbox_key input)
    then update_payload input rows
    else rows ++ input ∷ []

-- `arrayToMap`
pub array_to_map :
    List (String × WalletToEncDerivedKey)
    → JsMap String WalletToEncDerivedKey
    → JsMap String WalletToEncDerivedKey
array_to_map [] m = m
array_to_map ((key, value) ∷ arr) m = array_to_map arr (set m key value)

module _ (ext : Ext) where
  unfoldable pub hash_tx_as_hex : List ℕ → String
  hash_tx_as_hex tx_raw = bytes_to_base16 (ext.sha256 tx_raw)

  unfoldable pub push_did_from_master_public_key : String → String
  push_did_from_master_public_key master_public_key =
      string_append "PUSH_DID:"
        (ext.bytes_to_hex (ext.sha256 (ext.string_to_bytes_utf master_public_key)))

  -- the row of a transaction in an inbox
  abbrev pub inbox_row : String → ℕ → String → ℕ → String → Transaction → InboxRow
  inbox_row ns shard_id ns_index ts skey tx = record {
    namespace = ns;
    namespace_shard_id = shard_id;
    namespace_id = ns_index;
    ts = ts;
    skey = skey;
    payload = record {
      type = tx.type;
      category = tx.category;
      sender = tx.sender;
      recipients_list = tx.recipients;
      payload = bytes_to_base16 tx.payload;
      hash = hash_tx_as_hex (ext.serialize_tx tx);
    };
    expiration_ts = none;
  }

  -- the row that `addPushWallets` is called with
  abbrev pub wallet_row : InitDid → String → String → WalletToEncDerivedKey → PushWalletsRow
  wallet_row init_did did wallet value = record {
    address = wallet;
    did = did;
    derivedkeyindex = init_did.derivedkeyindex;
    encryptedderivedprivatekey = value.encderivedprivkey;
    signature = value.signature;
  }

  -- `Promise.all`: every insertion runs, and the first error is the one that is thrown.
  pub add_all_wallets :
      InitDid → String → JsMap String WalletToEncDerivedKey → Result (Unit {0}) → Step Db (Unit {0})
  add_all_wallets init_did did [] outcome db = (db, outcome)
  add_all_wallets init_did did ((wallet, value) ∷ m) outcome db =
      let (db', r) = add_push_wallets (wallet_row init_did did wallet value) db in
      add_all_wallets init_did did m (both outcome r) db'

  -- the row that `addPushKeys` is called with
  abbrev pub keys_row : InitDid → PushKeysRow
  keys_row init_did = record {
    masterpublickey = init_did.masterpubkey;
    did = push_did_from_master_public_key init_did.masterpubkey;
    derivedkeyindex = init_did.derivedkeyindex;
    derivedpublickey = init_did.derivedpubkey;
  }

  -- With no wallet, nothing is stored.
  pub put_keys_and_wallets : InitDid → JsMap String WalletToEncDerivedKey → Step Db Bool
  unfolding add_all_wallets
  put_keys_and_wallets init_did [] db = (db, ok false)
  put_keys_and_wallets init_did (entry ∷ m) db =
      continue
        (add_all_wallets init_did (push_did_from_master_public_key init_did.masterpubkey)
          (entry ∷ m) (ok tt) (add_push_keys (keys_row init_did) db))
        (λ _. return true)

  unfoldable pub put_init_did_transaction : InitDid → Step Db Bool
  unfolding put_keys_and_wallets array_to_map
  put_init_did_transaction init_did =
      put_keys_and_wallets init_did (array_to_map init_did.wallettoencderivedkey [])

  -- The text of base 64 that the code makes of the bytes and reads again is left out.
  unfoldable pub index_transaction_category : String → Transaction → Step Db (Unit {0})
  index_transaction_category ns body =
      if ns == "INIT_DID"
      then (lift (ext.deserialize_init_did body.payload) >>= λ deserialized_data.
          put_init_did_transaction deserialized_data >>= λ _. return tt)
      else return tt

  -- A shard that is null is refused by the column.
  unfoldable pub put_value_in_storage_table :
      String → Option ℕ → String → ℕ → String → Transaction → Step Db (Unit {0})
  put_value_in_storage_table ns none ns_index ts skey tx = lift (throw not_null_violation)
  put_value_in_storage_table ns (some shard_id) ns_index ts skey tx =
      write (λ db. record db {
        storage_node = upsert_inbox (inbox_row ns shard_id ns_index ts skey tx) db.storage_node;
      })
      >> index_transaction_category ns tx
