-- ===== src/ValidatorContractState.antt =====
-- services/messaging-common/validatorContractState.ts: the nodes that the validator contract
-- registers, kept up to date by its events. A map holds the only reference to its `NodeInfo`s, so
-- that to change one is to set it in its map.
pub mod Laws
mod Tests
use push_snode.Base.{
  ℕ, String, Bool, true, false, not, ◌&&◌, ◌||◌, List, [], ◌∷◌, Option, none, some, Result, ok,
  throw, ◌>>=◌, unsupported_node_type, if◌then◌else◌, nat_beq, filter, ◌==◌, nat_eq, string_eq,
}
use push_snode.Base.JsMap.{JsMap, get, set}

-- `enum NodeStatus`, as the numbers of the contract
abbrev pub status_ok : ℕ
status_ok = 0

abbrev pub reported : ℕ
reported = 1

abbrev pub slashed : ℕ
slashed = 2

abbrev pub banned_and_unstaked : ℕ
banned_and_unstaked = 3

-- `enum NodeType`
abbrev pub v_node : ℕ
v_node = 0

abbrev pub s_node : ℕ
s_node = 1

abbrev pub a_node : ℕ
a_node = 2

-- A url that cannot be read is `null`.
pub record NodeInfo : Type 0 where
  pub node_id : String
  pub url : Option String
  pub node_type : ℕ
  pub node_status : ℕ

-- What the contract answers about a node; the fields that the node reads.
pub record NodeInfo2 : Type 0 where
  pub node_wallet : String
  pub node_api_base_url : String
  pub node_type : ℕ
  pub status : ℕ

pub record ValidatorCtClient : Type 0 where
  pub vnodes : JsMap String NodeInfo
  pub snodes : JsMap String NodeInfo
  pub anodes : JsMap String NodeInfo
  pub val_per_block : ℕ
  pub val_per_block_target : ℕ
  pub node_random_min_count : ℕ
  pub node_random_ping_count : ℕ

pub values : JsMap String NodeInfo → List NodeInfo
values [] = []
values ((k, ni) ∷ m) = ni ∷ values m

unfoldable pub is_enabled : NodeInfo → Bool
is_enabled ni =
    nat_beq ni.node_status status_ok
    || nat_beq ni.node_status reported
    || nat_beq ni.node_status slashed

unfoldable pub is_active_validator : ValidatorCtClient → String → Bool
is_active_validator cli node_id = elim (get cli.vnodes node_id) [ none ↦ false | some ni ↦ true ]

unfoldable pub get_active_validators : ValidatorCtClient → List NodeInfo
unfolding values is_enabled
get_active_validators cli =
    filter (λ ni. nat_beq ni.node_type v_node && is_enabled ni) (values cli.vnodes)

-- `getActiveValidatorsExceptSelf`, and `getAllValidatorsExceptSelf` with the same body
unfoldable pub get_all_validators_except_self : ValidatorCtClient → String → List NodeInfo
unfolding values is_enabled
get_all_validators_except_self cli node_id =
    filter (λ ni. nat_beq ni.node_type v_node && (is_enabled ni && not (node_id == ni.node_id)))
      (values cli.vnodes)

-- `for (nodeAddr of vNodes)`: the answers are stored under the wallets that they name.
pub load_nodes :
    (String → Option String)
    → (String → NodeInfo2)
    → List String
    → JsMap String NodeInfo
    → JsMap String NodeInfo
load_nodes fix_node_url get_node_info [] m = m
load_nodes fix_node_url get_node_info (node_addr ∷ node_addrs) m =
    let ni_from_ct = get_node_info node_addr in
    let ni : NodeInfo = record {
      node_id = ni_from_ct.node_wallet;
      url = fix_node_url ni_from_ct.node_api_base_url;
      node_type = ni_from_ct.node_type;
      node_status = ni_from_ct.status;
    } in
    load_nodes fix_node_url get_node_info node_addrs (set m ni_from_ct.node_wallet ni)

-- The map that `getNodeMapByType` returns, changed by `f`.
unfoldable pub update_map_by_type :
    ValidatorCtClient
    → ℕ
    → (JsMap String NodeInfo → JsMap String NodeInfo)
    → Result ValidatorCtClient
update_map_by_type cli node_type f =
    if nat_beq node_type v_node
    then ok (record cli { vnodes = f cli.vnodes })
    else (if nat_beq node_type s_node
        then ok (record cli { snodes = f cli.snodes })
        else (if nat_beq node_type a_node
            then ok (record cli { anodes = f cli.anodes })
            else throw unsupported_node_type))

-- event `NodeAdded`
unfoldable pub node_added :
    (String → Option String) → ValidatorCtClient → String → ℕ → String → Result ValidatorCtClient
unfolding update_map_by_type
node_added fix_node_url cli node_wallet node_type node_api_base_url =
    let ni : NodeInfo = record {
      node_id = node_wallet;
      url = fix_node_url node_api_base_url;
      node_type = node_type;
      node_status = status_ok;
    } in
    update_map_by_type cli node_type (λ m. set m node_wallet ni)

-- The first of the maps that has the node is the one that changes.
unfoldable pub node_status_changed : ValidatorCtClient → String → ℕ → ValidatorCtClient
node_status_changed cli node_wallet node_status = elim (get cli.vnodes node_wallet) [
  | some ni ↦ record cli {
    vnodes = set cli.vnodes node_wallet (record ni { node_status = node_status });
  }
  | none ↦ elim (get cli.snodes node_wallet) [
    | some ni ↦ record cli {
      snodes = set cli.snodes node_wallet (record ni { node_status = node_status });
    }
    | none ↦ elim (get cli.anodes node_wallet) [
      | some ni ↦ record cli {
        anodes = set cli.anodes node_wallet (record ni { node_status = node_status });
      }
      | none ↦ cli
    ]
  ]
]

-- event `BlockParamsUpdated`
unfoldable pub block_params_updated : ValidatorCtClient → ℕ → ℕ → ValidatorCtClient
block_params_updated cli val_per_block val_per_block_target = record cli {
  val_per_block = val_per_block;
  val_per_block_target = val_per_block_target;
}

-- The parameters of the handler of `RandomParamsUpdated` hide the fields only until `this`.
unfoldable pub random_params_updated : ValidatorCtClient → ℕ → ℕ → ValidatorCtClient
random_params_updated cli node_random_min_count node_random_ping_count = record cli {
  node_random_min_count = node_random_min_count;
  node_random_ping_count = node_random_ping_count;
}
