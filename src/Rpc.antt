-- ===== src/Rpc.antt =====
-- src/rpc: what the endpoints answer, besides push_putBlock (PushPutBlock) and push_getBlockHashFromView
-- (BlockPolling). The checks of the parameters are called and their answers dropped.
mod Tests
use push_snode.Base.{ℕ, String, Bool, List, [], ◌∷◌, Option, none, some, Result, ok, throw, nat_eq}
use push_snode.Base.JsSet.{of_list}
use push_snode.Ext.{Ext}
use push_snode.Db.{Db, InboxPayload}
use push_snode.SyncTable.{SyncDb}
use push_snode.Views.{
  TieOrder, HashReply, ViewReply, get_bulk_blocks_by_hash,
  get_block_info_from_view_based_on_block_hashs, create_view_of_blocks_based_on_shard_ids,
}
use push_snode.DbHelper.Inbox.{Timestamp, PushGetTransactionsResult, get_transactions}
use push_snode.DbHelper.AccountInfo.{AccountInfo, get_account_info}
use push_snode.DbHelper.Lookup.{find_value_in_storage_table}

-- `push_putBlockHash`
unfoldable pub push_put_block_hash : Ext → Db → List String → List HashReply
push_put_block_hash ext db hashes = get_bulk_blocks_by_hash ext db hashes

-- `storage_getShardView`, which names no url
unfoldable pub storage_get_shard_view :
    TieOrder → (ℕ → Bool) → Db → ℕ → String → List ℕ → SyncDb → SyncDb × ViewReply
storage_get_shard_view tie is_zero blocks_db now view_name params db =
    create_view_of_blocks_based_on_shard_ids tie is_zero blocks_db now view_name (of_list params)
      none db

-- `push_getBlocksFromHashes`. An `Error` is answered as a value.
unfoldable pub push_get_blocks_from_hashes : List String → String → SyncDb → Option (List String)
push_get_blocks_from_hashes hashes table db =
    elim (get_block_info_from_view_based_on_block_hashs table hashes db) [
      | ok res ↦ some res
      | throw e ↦ none
    ]

-- `storage_getTransaction`: a list of one payload, or of the empty text
unfoldable pub storage_get_transaction : String → String → String → Db → List (Option InboxPayload)
storage_get_transaction wallet category key db =
    find_value_in_storage_table key category wallet db.storage_node ∷ []

-- `push_getTransactions`
unfoldable pub storage_get_transactions :
    ℕ → String → String → Timestamp → Option String → Db → Result PushGetTransactionsResult
storage_get_transactions now_seconds wallet_in_caip category timestamp sort db =
    get_transactions now_seconds wallet_in_caip category timestamp sort db

-- `push_accountInfo`: `pushKeys`, which is null where nothing is found. The wallet is the first parameter.
unfoldable pub push_account_info : String → Db → Option AccountInfo
push_account_info wallet db = get_account_info wallet db
