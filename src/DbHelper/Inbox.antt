-- ===== src/DbHelper/Inbox.antt =====
-- helpers/dbHelper.ts: an inbox is read, a page at a time (getTransactions). Rows of one time stand in the
-- order of insertion.
pub mod Laws
pub mod Order
pub mod Short
mod Tests
use push_snode.Base.{
  ℕ, zero, suc, ◌*◌, String, Bool, true, false, not, ◌&&◌, List, [], ◌∷◌, Option, none, some,
  Result, ok, throw, assertion_failed, if◌then◌else◌, filter, map, nat_beq, ltb, leb, ◌==◌, guard,
  ◌>>=◌, ◌>>◌, string_eq, nat_eq,
}
use push_snode.Db.{Db, InboxRow, InboxPayload}
use push_snode.Utilz.StrUtil

pub data SortOrder : Type 0 where
  asc desc : SortOrder

-- `DESC` where nothing is given
abbrev pub sort_order : Option String → Result SortOrder
sort_order sort = if StrUtil.is_empty_or_null sort then ok desc else (elim sort [
  | none ↦ ok desc
  | some s ↦ if s == "ASC" then ok asc else if s == "DESC" then ok desc else throw assertion_failed
])

-- The text of a time: none, one that is not of the form `seconds` or `seconds.fraction`, or a number of
-- microseconds.
pub data Timestamp : Type 0 where
  no_timestamp bad_timestamp : Timestamp
  at_micros : ℕ → Timestamp

-- `9999-12-31T23:59:59Z` in seconds
abbrev pub max_unix_ts : ℕ
max_unix_ts = 253402300799

-- `Check.isTrue(parseUnixFloatOrFail(firstTs))`, which refuses 0 too; without a time it is the present
-- one, in seconds.
unfoldable pub first_micros : ℕ → Timestamp → Result ℕ
first_micros now_seconds no_timestamp = ok (1000000 * now_seconds)
first_micros now_seconds bad_timestamp = throw assertion_failed
first_micros now_seconds (at_micros t) =
    if leb t (1000000 * max_unix_ts) && not (nat_beq t 0) then ok t else throw assertion_failed

-- strictly before in the order
abbrev pub before : SortOrder → ℕ → ℕ → Bool
before asc x y = ltb x y
before desc x y = ltb y x

-- `where namespace=$1 and namespace_id=$2 and ts > to_timestamp($3)`, with `<` for a descending order
abbrev pub is_asked : String → String → SortOrder → ℕ → InboxRow → Bool
is_asked category wallet sort first row =
    row.namespace == category && (row.namespace_id == wallet && before sort first (1000 * row.ts))

-- `order by ts`
unfoldable pub insert_row : SortOrder → InboxRow → List InboxRow → List InboxRow
insert_row sort row [] = row ∷ []
insert_row sort row (r ∷ rows) =
    let rest = insert_row sort row rows in
    if before sort r.ts row.ts then r ∷ rest else row ∷ r ∷ rows

unfoldable pub sort_rows : SortOrder → List InboxRow → List InboxRow
unfolding insert_row
sort_rows sort [] = []
sort_rows sort (row ∷ rows) = insert_row sort row (sort_rows sort rows)

-- `WITH TIES`: the rows that have the time of the last one
unfoldable pub ties : ℕ → List InboxRow → List InboxRow
ties t [] = []
ties t (row ∷ rows) = let rest = ties t rows in if nat_beq row.ts t then row ∷ rest else []

-- `FETCH FIRST n ROWS WITH TIES`
unfoldable pub fetch_first : ℕ → List InboxRow → List InboxRow
unfolding ties
fetch_first zero rows = []
fetch_first (suc n) [] = []
fetch_first (suc zero) (row ∷ rows) = row ∷ ties row.ts rows
fetch_first (suc (suc n)) (row ∷ rows) = row ∷ fetch_first (suc n) rows

pub record Item : Type 0 where
  pub ns : String
  pub skey : String
  -- milliseconds
  pub ts : ℕ
  pub payload : InboxPayload

pub record PushGetTransactionsResult : Type 0 where
  pub items : List Item
  pub last_ts : Option ℕ

abbrev pub to_item : String → InboxRow → Item
to_item category row = record { ns = category; skey = row.skey; ts = row.ts; payload = row.payload }

unfoldable pub last_ts_of : List Item → Option ℕ
last_ts_of [] = none
last_ts_of (item ∷ []) = some item.ts
last_ts_of (item ∷ item' ∷ items) = last_ts_of (item' ∷ items)

-- The answer with the rows of the query.
unfoldable pub page_of : String → List InboxRow → PushGetTransactionsResult
unfolding last_ts_of
page_of category rows =
    let items_arr = map (to_item category) rows in
    record { items = items_arr; last_ts = last_ts_of items_arr }

abbrev pub transactions_page_size : ℕ
transactions_page_size = 30

unfoldable pub get_transactions :
    ℕ → String → String → Timestamp → Option String → Db → Result PushGetTransactionsResult
unfolding sort_rows fetch_first page_of first_micros
get_transactions now_seconds wallet_in_caip category first_ts sort db = sort_order sort >>= λ order.
    first_micros now_seconds first_ts >>= λ first. ok (
      page_of category (
        fetch_first transactions_page_size (
          sort_rows order (filter (is_asked category wallet_in_caip order first) db.storage_node))))
