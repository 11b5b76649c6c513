-- ===== src/ValidatorContractState/Tests.antt =====
-- A validator that is added, and then banned.
use push_snode.Base.{◌≡◌, refl, true, [], ◌∷◌, some, ok, string_eq}
use push_snode.Base.JsSet.{has}
use push_snode.Base.JsMap.{get, set, keys}
use push_snode.ValidatorContractState.{
  ValidatorCtClient, node_added, update_map_by_type, node_status_changed, get_active_validators,
  is_active_validator,
}
use push_snode.ValidatorContractState.Laws.{
  added, status_changed, Reaches, here, after, IsWellFormed, Reaches-IsWellFormed, Reaches-has-keys,
}

abbrev none_yet : ValidatorCtClient
none_yet = record {
  vnodes = [];
  snodes = [];
  anodes = [];
  val_per_block = 2;
  val_per_block_target = 2;
  node_random_min_count = 1;
  node_random_ping_count = 1;
}

abbrev one : ValidatorCtClient
one = record none_yet {
  vnodes =
      ("0xV", record { node_id = "0xV"; url = some "https://v"; node_type = 0; node_status = 0 })
      ∷ [];
}

added_one : node_added some none_yet "0xV" 0 "https://v" ≡ ok one
unfolding node_added update_map_by_type set
added_one = refl

abbrev banned : ValidatorCtClient
banned = node_status_changed one "0xV" 3

-- The banned validator is not enabled, and is still active.
still_active : (get_active_validators banned ≡ []) × (is_active_validator banned "0xV" ≡ true)
unfolding get_active_validators is_active_validator node_status_changed get set
still_active = (refl, refl)

events : Reaches some none_yet banned
events = after (after here (added one "0xV" 0 "https://v" added_one)) (status_changed "0xV" 3)

Reaches-IsWellFormed_example : IsWellFormed banned
Reaches-IsWellFormed_example = Reaches-IsWellFormed some none_yet banned events ((tt, tt, tt))

is_key : has (keys one.vnodes) "0xV" ≡ true
unfolding has keys
is_key = refl

Reaches-has-keys_example : has (keys banned.vnodes) "0xV" ≡ true
Reaches-has-keys_example =
    Reaches-has-keys some one banned "0xV" (after here (status_changed "0xV" 3)) is_key
