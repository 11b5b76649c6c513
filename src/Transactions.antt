-- ===== src/Transactions.antt =====
-- services/transactions: the keys and the wallets of an identity. An `INSERT` whose arbiter column
-- meets a row updates it, and fails when another unique column does.
use push_snode.Base.{
  ℕ, Bool, true, false, not, ◌&&◌, ◌||◌, List, [], ◌∷◌, ◌++◌, Result, ok, throw, unique_violation,
  foreign_key_violation, if◌then◌else◌, any, nat_beq, ◌==◌, string_eq,
}
use push_snode.Base.Steps.{Step}
use push_snode.Db.{Db, PushKeysRow, PushWalletsRow}

-- `===` on bytes, by their text
pub bytes_beq : List ℕ → List ℕ → Bool
bytes_beq [] [] = true
bytes_beq [] (y ∷ ys) = false
bytes_beq (x ∷ xs) [] = false
bytes_beq (x ∷ xs) (y ∷ ys) = nat_beq x y && bytes_beq xs ys

-- A conflict on `did` updates the derived key of the row.
pub update_push_keys : PushKeysRow → List PushKeysRow → List PushKeysRow
update_push_keys input [] = []
update_push_keys input (row ∷ rows) =
    (if row.did == input.did
      then record row {
        derivedkeyindex = input.derivedkeyindex;
        derivedpublickey = input.derivedpublickey;
      }
      else row)
    ∷ update_push_keys input rows

pub insert_push_keys : PushKeysRow → List PushKeysRow → Result (List PushKeysRow)
unfolding update_push_keys
insert_push_keys input rows =
    if any (λ (row : PushKeysRow). row.did == input.did) rows
    then (if any
          (λ (row : PushKeysRow).
            not (row.did == input.did) && row.derivedpublickey == input.derivedpublickey)
          rows
        then throw unique_violation
        else ok (update_push_keys input rows))
    else (if any
          (λ (row : PushKeysRow).
            row.masterpublickey == input.masterpublickey
            || row.derivedpublickey == input.derivedpublickey)
          rows
        then throw unique_violation
        else ok (rows ++ input ∷ []))

-- An error of the insertion is logged, and leaves the table as it is.
abbrev pub inserted_keys : Db → Result (List PushKeysRow) → Db
inserted_keys db (ok rows) = record db { push_keys = rows }
inserted_keys db (throw e) = db

unfoldable pub add_push_keys : PushKeysRow → Db → Db
unfolding insert_push_keys
add_push_keys input db = inserted_keys db (insert_push_keys input db.push_keys)

-- A conflict on `address` replaces the other columns of the row.
pub update_push_wallets : PushWalletsRow → List PushWalletsRow → List PushWalletsRow
update_push_wallets input [] = []
update_push_wallets input (row ∷ rows) =
    (if row.address == input.address then input else row) ∷ update_push_wallets input rows

pub insert_push_wallets :
    PushWalletsRow → List PushKeysRow → List PushWalletsRow → Result (List PushWalletsRow)
unfolding update_push_wallets bytes_beq
insert_push_wallets input keys rows =
    if any
      (λ (row : PushWalletsRow).
        not (row.address == input.address)
        && (bytes_beq row.encryptedderivedprivatekey input.encryptedderivedprivatekey
            || bytes_beq row.signature input.signature))
      rows
    then throw unique_violation
    else (if not (any (λ (row : PushKeysRow). row.did == input.did) keys)
        then throw foreign_key_violation
        else (if any (λ (row : PushWalletsRow). row.address == input.address) rows
            then ok (update_push_wallets input rows)
            else ok (rows ++ input ∷ [])))

abbrev pub inserted_wallets : Db → Result (List PushWalletsRow) → Db × Result (Unit {0})
inserted_wallets db (ok rows) = (record db { push_wallets = rows }, ok tt)
inserted_wallets db (throw e) = (db, throw e)

unfoldable pub add_push_wallets : PushWalletsRow → Step Db (Unit {0})
unfolding insert_push_wallets
add_push_wallets input db =
    inserted_wallets db (insert_push_wallets input db.push_keys db.push_wallets)
