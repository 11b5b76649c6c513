-- ===== src/DbHelper/Inbox/Tests.antt =====
-- An inbox with two rows, read newest first.
use push_snode.Base.{
  ℕ, ◌*◌, ◌≤◌, String, ◌≡◌, refl, ◌⊎◌, List, [], ◌∷◌, ◌++◌, none, some, ok, throw, assertion_failed,
  filter, length, Option, nat_eq, string_eq, Result,
}
use mathlib.Core.List.{Perm}
use push_snode.Db.{Db, InboxRow}
use push_snode.Utilz.StrUtil
use push_snode.DbHelper.Inbox.{
  desc, at_micros, no_timestamp, is_asked, page_of, get_transactions, first_micros, fetch_first,
  sort_rows, insert_row, ties, last_ts_of, PushGetTransactionsResult,
}
use push_snode.DbHelper.Inbox.Order.{IsOrdered}
use push_snode.DbHelper.Inbox.Short.{IsShort}
use push_snode.DbHelper.Inbox.Laws.{IsCut, get_transactions_lem}

abbrev row : ℕ → String → InboxRow
row ts skey = record {
  namespace = "INBOX";
  namespace_shard_id = 1;
  namespace_id = "eip155:1:0xA";
  ts = ts;
  skey = skey;
  payload = record {
    type = 0;
    category = "INBOX";
    sender = "eip155:1:0xB";
    recipients_list = "eip155:1:0xA" ∷ [];
    payload = "00";
    hash = skey;
  };
  expiration_ts = none;
}

abbrev db : Db
db = record {
  blocks = [];
  storage_node = row 1700000000123 "01" ∷ row 1700000000456 "02" ∷ [];
  push_keys = [];
  push_wallets = [];
  contract_shards = [];
}

get_transactions_lem_example :
    (page : List InboxRow) × (left : List InboxRow) × (get_transactions 1800000000 "eip155:1:0xA"
        "INBOX" no_timestamp none db
      ≡ ok (page_of "INBOX" page))
    × Perm
        (page ++ left)
        (filter (is_asked "INBOX" "eip155:1:0xA" desc 1800000000000000) db.storage_node)
    × IsOrdered desc (page ++ left)
    × IsCut desc page left
    × ((left ≡ []) ⊎ (30 ≤ length page))
    × IsShort desc 30 page
unfolding first_micros StrUtil.is_empty_or_null
get_transactions_lem_example =
    get_transactions_lem 1800000000 "eip155:1:0xA" "INBOX" no_timestamp none db desc
      1800000000000000 refl refl

-- The time of the last item of an answer.
last_ts : Result PushGetTransactionsResult → Option ℕ
last_ts (ok answer) = answer.last_ts
last_ts (throw e) = none

answers_milliseconds :
    last_ts (get_transactions 1800000000 "eip155:1:0xA" "INBOX" no_timestamp none db)
    ≡ some 1700000000123
unfolding last_ts get_transactions first_micros StrUtil.is_empty_or_null fetch_first sort_rows
    insert_row ties page_of last_ts_of
answers_milliseconds = refl

-- It is refused where it is given as the seconds of the next request.
refuses_milliseconds :
    get_transactions 1800000000 "eip155:1:0xA" "INBOX" (at_micros (1000000 * 1700000000123)) none db
    ≡ throw assertion_failed
unfolding get_transactions first_micros StrUtil.is_empty_or_null
refuses_milliseconds = refl
