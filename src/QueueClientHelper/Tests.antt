-- ===== src/QueueClientHelper/Tests.antt =====
-- A validator with a row, one without, and one that was disabled after its row was written.
use push_snode.Base.{ℕ, String, ◌≡◌, refl, [], ◌∷◌, some, ok, string_eq, if◌then◌else◌}
use push_snode.Base.JsSet.{has}
use push_snode.QueueClient.{DsetClient}
use push_snode.ValidatorContractState.{
  NodeInfo, ValidatorCtClient, is_enabled, get_all_validators_except_self,
}
use push_snode.QueueClientHelper.{
  DsetTable, update_clients, upsert_client, init_clients, init_queues,
  init_client_for_every_queue_for_every_validator,
}
use push_snode.QueueClientHelper.Rows.{endpoint_at}
use push_snode.QueueClientHelper.Laws.{
  last_node, set_up, init_client_for_every_queue_for_every_validator_lem,
}

abbrev validator : String → String → ℕ → NodeInfo
validator id url status = record {
  node_id = id;
  url = some url;
  node_type = 0;
  node_status = status;
}

abbrev cli : ValidatorCtClient
cli = record {
  vnodes =
      ("0xA", validator "0xA" "http://a2" 0)
      ∷ ("0xB", validator "0xB" "http://b" 1)
      ∷ ("0xC", validator "0xC" "http://c" 3)
      ∷ [];
  snodes = [];
  anodes = [];
  val_per_block = 2;
  val_per_block_target = 2;
  node_random_min_count = 1;
  node_random_ping_count = 1;
}

abbrev row : ℕ → String → String → ℕ → DsetClient
row id node url offset = record {
  id = id;
  queue_name = "mblock";
  target_node_id = node;
  target_node_url = url;
  target_offset = offset;
  state = 1;
}

abbrev before : DsetTable
before = record { rows = row 1 "0xA" "http://a" 7 ∷ row 2 "0xC" "http://c" 4 ∷ []; next_id = 3 }

abbrev after : DsetTable
after = record {
  rows = row 1 "0xA" "http://a2" 7 ∷ row 2 "0xC" "http://c" 4 ∷ row 4 "0xB" "http://b" 0 ∷ [];
  next_id = 5;
}

-- The row of the validator that is banned keeps the state 1.
runs :
    init_client_for_every_queue_for_every_validator cli "0xN" ("mblock" ∷ []) before
    ≡ (after, ok tt)
unfolding init_client_for_every_queue_for_every_validator init_queues init_clients upsert_client
    update_clients get_all_validators_except_self is_enabled
runs = refl

init_client_for_every_queue_for_every_validator_lem_example : endpoint_at "mblock" "0xC" after ≡ (
    if has {A = String} ("mblock" ∷ []) "mblock"
    then set_up
        (last_node "0xC" (get_all_validators_except_self cli "0xN"))
        (endpoint_at "mblock" "0xC" before)
    else endpoint_at "mblock" "0xC" before)
init_client_for_every_queue_for_every_validator_lem_example =
    init_client_for_every_queue_for_every_validator_lem cli "0xN" ("mblock" ∷ []) before after runs
      "mblock" "0xC"
