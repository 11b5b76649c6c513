-- ===== src/DbHelper/Lookup.antt =====
-- helpers/dbHelper.ts: one transaction of an inbox is looked up (findValueInStorageTable). The values
-- stand in the text of the query as they are; a value with a quote is left out here.
pub mod Laws
mod Tests
use push_snode.Base.{
  ℕ, String, Bool, ◌&&◌, List, [], ◌∷◌, Option, none, some, filter, map, ◌==◌, string_eq,
}
use push_snode.Db.{Db, InboxRow, InboxPayload}
use push_snode.SyncTable.{one_row}

-- `where skey = ... and namespace = ... and namespace_id = ...`
abbrev pub is_value : String → String → String → InboxRow → Bool
is_value skey namespace namespace_id row =
    row.skey == skey && (row.namespace == namespace && row.namespace_id == namespace_id)

abbrev pub payloads_of : List InboxRow → List InboxPayload
payloads_of rows = map (λ (row : InboxRow). row.payload) rows

-- The empty text, which is `none`, unless there is exactly one row.
unfoldable pub find_value_in_storage_table :
    String → String → String → List InboxRow → Option InboxPayload
find_value_in_storage_table skey namespace namespace_id rows =
    one_row (payloads_of (filter (is_value skey namespace namespace_id) rows))
