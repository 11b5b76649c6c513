-- ===== src/DbHelper/Lookup/Tests.antt =====
-- A row that is put into an inbox a second time, and one whose wallet moved to another shard.
use push_snode.Base.{ℕ, String, ◌≡◌, refl, [], ◌∷◌, none, some, nat_eq, string_eq, pair_eq}
use push_snode.Base.JsSet.{has}
use push_snode.Db.{InboxRow}
use push_snode.DbHelper.{inbox_keys, upsert_inbox}
use push_snode.DbHelper.Lookup.{find_value_in_storage_table}
use push_snode.DbHelper.Lookup.Laws.{find_value_in_storage_table-upsert_inbox}

abbrev row : ℕ → String → InboxRow
row shard sender = record {
  namespace = "INBOX";
  namespace_shard_id = shard;
  namespace_id = "eip155:1:0xA";
  ts = 1700000000123;
  skey = "02";
  payload = record {
    type = 0;
    category = "INBOX";
    sender = sender;
    recipients_list = "eip155:1:0xA" ∷ [];
    payload = "00";
    hash = "02";
  };
  expiration_ts = none;
}

find_value_in_storage_table-upsert_inbox_example :
    find_value_in_storage_table "02" "INBOX" "eip155:1:0xA"
      (upsert_inbox (row 1 "eip155:1:0xC") (row 1 "eip155:1:0xB" ∷ []))
    ≡ some ((row 1 "eip155:1:0xC").payload)
unfolding inbox_keys has
find_value_in_storage_table-upsert_inbox_example =
    find_value_in_storage_table-upsert_inbox (row 1 "eip155:1:0xC") (row 1 "eip155:1:0xB" ∷ [])
      ((λ h. refl, tt)) ((refl, tt))

-- With a row in two shards, none is found.
finds_none_of_two :
    find_value_in_storage_table "02" "INBOX" "eip155:1:0xA"
      (upsert_inbox (row 2 "eip155:1:0xB") (row 1 "eip155:1:0xB" ∷ []))
    ≡ none
unfolding find_value_in_storage_table upsert_inbox inbox_keys has
finds_none_of_two = refl
