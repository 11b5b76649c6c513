-- ===== src/DbHelper/AccountInfo.antt =====
-- helpers/dbHelper.ts: what is known of the account of a wallet or of an identity (getAccountInfo).
mod Tests
use push_snode.Base.{
  ℕ, String, List, [], ◌∷◌, Option, none, some, filter, map, ◌==◌, leb, if◌then◌else◌, string_eq,
}
use push_snode.Db.{Db, PushKeysRow, PushWalletsRow}
use push_snode.Utilz.ChainUtil.{is_push_did}
use push_snode.SyncTable.{one_row}

-- The private key is the bytes whose text the column holds.
pub record AccountInfo : Type 0 where
  pub masterpublickey : String
  pub did : String
  pub derivedpublickey : String
  pub derivedkeyindex : ℕ
  pub encryptedderivedprivatekey : Option (List ℕ)
  pub attached_accounts : List (String × ℕ)

-- `json_agg(... ORDER BY pw.derivedkeyindex ASC)`; accounts of one index stand in the order of insertion.
unfoldable pub insert_account : String × ℕ → List (String × ℕ) → List (String × ℕ)
insert_account (address, index) [] = (address, index) ∷ []
insert_account (address, index) ((a, i) ∷ accounts) =
    let rest = insert_account (address, index) accounts in
    if leb index i then (address, index) ∷ (a, i) ∷ accounts else (a, i) ∷ rest

unfoldable pub attached : List PushWalletsRow → List (String × ℕ)
unfolding insert_account
attached [] = []
attached (row ∷ rows) = insert_account (row.address, row.derivedkeyindex) (attached rows)

abbrev pub wallets_of : String → List PushWalletsRow → List PushWalletsRow
wallets_of did rows = filter (λ row. row.did == did) rows

-- The row of an identity with its wallets.
abbrev pub account_of : Option (List ℕ) → List PushWalletsRow → PushKeysRow → AccountInfo
account_of private_key wallets keys = record {
  masterpublickey = keys.masterpublickey;
  did = keys.did;
  derivedpublickey = keys.derivedpublickey;
  derivedkeyindex = keys.derivedkeyindex;
  encryptedderivedprivatekey = private_key;
  attached_accounts = attached (wallets_of keys.did wallets);
}

-- `WHERE pk.did = ...`
abbrev pub accounts_of : String → Option (List ℕ) → Db → Option AccountInfo
accounts_of did private_key db =
    one_row
      (map (account_of private_key db.push_wallets) (filter (λ row. row.did == did) db.push_keys))

-- `did_lookup` has at most one row, for an address is unique. Where it has none, nothing is found. A wallet
-- of the identity is there then, so that the inner join leaves no row out.
unfoldable pub get_account_info : String → Db → Option AccountInfo
unfolding attached
get_account_info wallet db =
    if is_push_did wallet
    then accounts_of wallet none db
    else (elim (filter (λ (row : PushWalletsRow). row.address == wallet) db.push_wallets) [
      | [] ↦ none
      | row ∷ rows ↦ accounts_of row.did (some row.encryptedderivedprivatekey) db
    ])
