-- ===== src/QueueClientHelper.antt =====
-- services/messaging-common/queueClientHelper.ts: the rows of `dset_client`, one for each queue of
-- each validator. An insertion takes an id from the sequence also where it turns into an update.
pub mod Rows
pub mod Laws
mod Tests
use push_snode.Base.{
  ℕ, suc, String, Bool, true, false, not, ◌&&◌, List, [], ◌∷◌, Option, none, some, Result, ok,
  throw, guard, assertion_failed, not_null_violation, if◌then◌else◌, ◌++◌, ◌==◌, any, nat_beq,
  length, string_eq,
}
use push_snode.Base.Steps.{Step, lift, return, ◌>>=◌, ◌>>◌}
use push_snode.QueueClient.{DsetClient}
use push_snode.ValidatorContractState.{
  NodeInfo, ValidatorCtClient, is_enabled, get_all_validators_except_self,
}

pub record DsetTable : Type 0 where
  pub rows : List DsetClient
  pub next_id : ℕ

-- `UNIQUE (queue_name, target_node_id)`
abbrev pub is_client : String → String → DsetClient → Bool
is_client queue_name node_id row = row.queue_name == queue_name && row.target_node_id == node_id

-- `DO UPDATE SET target_node_url = ..., state = ...`
unfoldable pub update_clients : String → String → String → ℕ → List DsetClient → List DsetClient
update_clients queue_name node_id url state [] = []
update_clients queue_name node_id url state (row ∷ rows) =
    let rest = update_clients queue_name node_id url state rows in
    if is_client queue_name node_id row
    then record row { target_node_url = url; state = state } ∷ rest
    else row ∷ rest

-- the insert or update of one row; the url of a row is not null
unfoldable pub upsert_client : String → String → Option String → ℕ → Step DsetTable (Unit {0})
unfolding update_clients
upsert_client queue_name node_id none state t =
    (record t { next_id = suc t.next_id }, throw not_null_violation)
upsert_client queue_name node_id (some url) state t =
    let rows =
      if any (is_client queue_name node_id) t.rows
      then update_clients queue_name node_id url state t.rows
      else t.rows
        ++ (record {
          id = t.next_id;
          queue_name = queue_name;
          target_node_id = node_id;
          target_node_url = url;
          target_offset = 0;
          state = state;
        }
            ∷ []) in
    (record { rows = rows; next_id = suc t.next_id }, ok tt)

-- `ValidatorContractState.isEnabled(nodeInfo) ? 1 : 0`
abbrev pub target_state : NodeInfo → ℕ
target_state ni = if is_enabled ni then 1 else 0

-- the loop over the validators
unfoldable pub init_clients : String → List NodeInfo → Step DsetTable (Unit {0})
unfolding upsert_client
init_clients queue_name [] = return tt
init_clients queue_name (ni ∷ nodes) =
    upsert_client queue_name ni.node_id ni.url (target_state ni) >> init_clients queue_name nodes

-- the loop over the queues
unfoldable pub init_queues : List String → List NodeInfo → Step DsetTable (Unit {0})
unfolding init_clients
init_queues [] nodes = return tt
init_queues (queue_name ∷ queue_names) nodes =
    init_clients queue_name nodes >> init_queues queue_names nodes

unfoldable pub init_client_for_every_queue_for_every_validator :
    ValidatorCtClient → String → List String → Step DsetTable (Unit {0})
unfolding init_queues
init_client_for_every_queue_for_every_validator cli node_id queue_names =
    lift (guard (not (nat_beq (length queue_names) 0)) assertion_failed)
    >> init_queues queue_names (get_all_validators_except_self cli node_id)
