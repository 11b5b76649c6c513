-- ===== src/DbHelper/AccountInfo/Tests.antt =====
-- An identity with two wallets.
use push_snode.Base.{ℕ, String, ◌≡◌, refl, List, [], ◌∷◌, none, some, string_eq}
use push_snode.Db.{Db, PushWalletsRow}
use push_snode.Utilz.StrUtil
use push_snode.Utilz.ChainUtil.{is_push_did, parse_caip_address, check_components, no_prefix}
use push_snode.DbHelper.AccountInfo.{get_account_info, attached, insert_account}

abbrev wallet_row : String → ℕ → List ℕ → PushWalletsRow
wallet_row address index key = record {
  address = address;
  did = "PUSH_DID:01";
  derivedkeyindex = index;
  encryptedderivedprivatekey = key;
  signature = key;
}

abbrev db : Db
db = record {
  blocks = [];
  storage_node = [];
  push_keys =
      record {
        masterpublickey = "0xM";
        did = "PUSH_DID:01";
        derivedkeyindex = 0;
        derivedpublickey = "0xD";
      }
      ∷ [];
  push_wallets = wallet_row "eip155:1:0xA" 1 (1 ∷ []) ∷ wallet_row "eip155:1:0xB" 0 (2 ∷ []) ∷ [];
  contract_shards = [];
}

finds_by_wallet :
    get_account_info "eip155:1:0xA" db
    ≡ some (record {
      masterpublickey = "0xM";
      did = "PUSH_DID:01";
      derivedpublickey = "0xD";
      derivedkeyindex = 0;
      encryptedderivedprivatekey = some (1 ∷ []);
      attached_accounts = ("eip155:1:0xB", 0) ∷ ("eip155:1:0xA", 1) ∷ [];
    })
unfolding get_account_info attached insert_account is_push_did parse_caip_address check_components
    no_prefix StrUtil.length StrUtil.is_empty StrUtil.split StrUtil.is_empty_or_null
    StrUtil.has_size StrUtil.is_space StrUtil.is_blank StrUtil.starts_with StrUtil.substring
finds_by_wallet = refl

finds_nothing : get_account_info "eip155:1:0xC" db ≡ none
unfolding get_account_info is_push_did parse_caip_address check_components no_prefix StrUtil.length
    StrUtil.is_empty StrUtil.split StrUtil.is_empty_or_null StrUtil.has_size StrUtil.is_space
    StrUtil.is_blank StrUtil.starts_with StrUtil.substring
finds_nothing = refl
