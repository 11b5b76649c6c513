-- ===== src/Db.antt =====
-- The tables of the node (BlockStorage.createStorageTablesIfNeeded). A table is the list of its
-- rows in the order of insertion, which is the order that a query without `ORDER BY` is answered in
-- here. Column widths are left out; keys and constraints are kept by the functions that write.
use push_snode.Base.{ℕ, String, List, Option}

pub record BlockRow : Type 0 where
  pub object_hash : String
  pub object : String
  pub object_shards : List ℕ
  pub object_raw : String
  -- seconds: the milliseconds of the block divided by 1000
  pub ts : ℕ
  -- milliseconds, as every expiry time
  pub expiry_ts : Option ℕ

-- `transactionAsJson`
pub record InboxPayload : Type 0 where
  pub type : ℕ
  pub category : String
  pub sender : String
  pub recipients_list : List String
  pub payload : String
  pub hash : String

-- A row of `storage_node`. The time is kept in milliseconds: the code writes them divided by 1000.
pub record InboxRow : Type 0 where
  pub namespace : String
  pub namespace_shard_id : ℕ
  pub namespace_id : String
  pub ts : ℕ
  pub skey : String
  pub payload : InboxPayload
  pub expiration_ts : Option ℕ

pub record PushKeysRow : Type 0 where
  pub masterpublickey : String
  pub did : String
  pub derivedkeyindex : ℕ
  pub derivedpublickey : String

-- The key and the signature are the bytes whose text the columns hold.
pub record PushWalletsRow : Type 0 where
  pub address : String
  pub did : String
  pub derivedkeyindex : ℕ
  pub encryptedderivedprivatekey : List ℕ
  pub signature : List ℕ

pub record ContractShardsRow : Type 0 where
  pub ts : ℕ
  pub shards_assigned : List ℕ

pub record Db : Type 0 where
  pub blocks : List BlockRow
  pub storage_node : List InboxRow
  pub push_keys : List PushKeysRow
  pub push_wallets : List PushWalletsRow
  pub contract_shards : List ContractShardsRow
