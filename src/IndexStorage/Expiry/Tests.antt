-- ===== src/IndexStorage/Expiry/Tests.antt =====
-- Two inboxes with rows of two transactions, and three expired blocks.
use push_snode.Base.{
  arith, List, ℕ, String, ◌≡◌, refl, true, not, filter, take, [], ◌∷◌, Option, some, none,
  string_eq,
}
use push_snode.Base.JsSet.{has}
use push_snode.Db.{Db, InboxRow, InboxPayload, BlockRow}
use push_snode.IndexStorage.Expiry.{
  select_keys, block_key, expired_block, delete_shards_from_inboxes,
  delete_expired_blocks_paginated,
}
use push_snode.IndexStorage.Expiry.Termination.{delete_expired_blocks_paginated-returns}
use push_snode.IndexStorage.Expiry.Laws.{delete_shards_from_inboxes_lem}

abbrev payload : InboxPayload
payload = record {
  type = 0;
  category = "CUSTOM";
  sender = "eip155:1:0xA";
  recipients_list = [];
  payload = "";
  hash = "h";
}

abbrev row : String → String → Option ℕ → InboxRow
row wallet skey expiration_ts = record {
  namespace = "inbox";
  namespace_shard_id = 1;
  namespace_id = wallet;
  ts = 1;
  skey = skey;
  payload = payload;
  expiration_ts = expiration_ts;
}

abbrev block : String → BlockRow
block hash = record {
  object_hash = hash;
  object = "";
  object_shards = [];
  object_raw = "";
  ts = 1;
  expiry_ts = some 5;
}

abbrev db : Db
db = record {
  blocks = block "a" ∷ block "b" ∷ block "c" ∷ [];
  storage_node = row "w1" "a" (some 5) ∷ row "w2" "a" none ∷ row "w1" "b" (some 20) ∷ [];
  push_keys = [];
  push_wallets = [];
  contract_shards = [];
}

abbrev after : Db
after = record db { storage_node = row "w1" "b" (some 20) ∷ [] }

delete_shards_from_inboxes_lem_example : delete_shards_from_inboxes 10 db ≡ after
unfolding delete_shards_from_inboxes has
delete_shards_from_inboxes_lem_example = delete_shards_from_inboxes_lem 10 db

-- All three blocks have expired; with pages of one row the second stays.
blocks_left_behind : delete_expired_blocks_paginated 10 1 db ≡ some (block "b" ∷ [])
unfolding delete_expired_blocks_paginated has
blocks_left_behind = refl

blocks_of_one_page : delete_expired_blocks_paginated 10 1000 db ≡ some []
unfolding delete_expired_blocks_paginated has
blocks_of_one_page = refl

delete_expired_blocks_paginated-returns_example :
    (left : List BlockRow) × (gone : List String) × (delete_expired_blocks_paginated 10 1 db
      ≡ some left)
    × (left ≡ filter (λ row. not (has gone row.object_hash)) db.blocks)
    × ((h : String)
        → has gone h ≡ true
        → has (select_keys block_key (expired_block 10) db.blocks) h ≡ true)
    × ((h : String)
        → has (take 1 (select_keys block_key (expired_block 10) db.blocks)) h ≡ true
        → has gone h ≡ true)
delete_expired_blocks_paginated-returns_example =
    delete_expired_blocks_paginated-returns 10 1 db (omega arith)
