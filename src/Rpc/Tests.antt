-- ===== src/Rpc/Tests.antt =====
-- A view that is not there, and a table without rows.
use push_snode.Base.{◌≡◌, refl, [], ◌∷◌, none, string_eq, nat_eq}
use push_snode.Base.JsMap.{get}
use push_snode.Db.{Db}
use push_snode.SyncTable.{SyncDb}
use push_snode.Views.{get_block_info_from_view_based_on_block_hashs}
use push_snode.DbHelper.Lookup.{find_value_in_storage_table}
use push_snode.Rpc.{push_get_blocks_from_hashes, storage_get_transaction}

abbrev no_views : SyncDb
no_views = record { storage_sync_info = []; views = [] }

abbrev empty : Db
empty = record {
  blocks = [];
  storage_node = [];
  push_keys = [];
  push_wallets = [];
  contract_shards = [];
}

has_no_view : push_get_blocks_from_hashes ("01" ∷ []) "vw" no_views ≡ none
unfolding push_get_blocks_from_hashes get_block_info_from_view_based_on_block_hashs get
has_no_view = refl

has_no_transaction : storage_get_transaction "eip155:1:0xA" "INBOX" "02" empty ≡ none ∷ []
unfolding storage_get_transaction find_value_in_storage_table
has_no_transaction = refl
