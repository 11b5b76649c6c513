-- ===== src/BlockUtil/Tx.antt =====
-- The checks of one transaction.
pub mod Laws
use push_snode.Base.{
  ℕ, String, Bool, true, false, not, ◌||◌, List, [], ◌∷◌, Option, none, some, Result, ok, throw,
  ◌>>=◌, ◌>>◌, ltb, leb, nat_beq, if◌then◌else◌, ◌==◌, string_eq, length, get_elem?,
}
use push_snode.Proto.{Transaction, InitDid, WalletToEncDerivedKey}
use push_snode.Ext.{Ext}
use push_snode.Utilz.StrUtil
use push_snode.Utilz.BitUtil.Hex.{hex0x_to_bytes}
use push_snode.Utilz.ChainUtil.{CaipAddr, caip, failed, parse_caip_address, is_full_caip_address}
use push_snode.PushSdkUtil.{
  message_bytes_to_hash_bytes, check_push_init_did_signature, check_push_init_did_sender,
  check_push_network_signature, check_push_init_did_wallet_mapping,
}
use push_snode.BlockUtil.CheckR.{
  CheckR, pass, fail_with_text, invalid_token, only_non_value, not_full_caip, salt_too_small,
  signature_too_small, caip_error, and_then, fail_if,
}

-- `ArrayUtil.hasMinSize`: with a minimum of 0 the array has to be empty.
unfoldable pub has_min_size : List ℕ → ℕ → Bool
has_min_size array min_size =
    if nat_beq min_size 0 then nat_beq (length array) 0 else leb min_size (length array)

module _ (ext : Ext) where
  -- `checkValidatorTokenFormat` and `checkAttestTokenFormat`, by their prefix
  unfoldable pub check_token_format : String → List ℕ → CheckR
  check_token_format prefix token_bytes =
      let token = ext.bytes_utf_to_string token_bytes in
      if StrUtil.is_empty token || not (StrUtil.starts_with token prefix)
      then fail_with_text invalid_token
      else pass

  unfoldable pub check_validator_token_format : List ℕ → CheckR
  unfolding check_token_format
  check_validator_token_format = check_token_format "VT1"

  unfoldable pub check_attest_token_format : List ℕ → CheckR
  unfolding check_token_format
  check_attest_token_format = check_token_format "AT1"

  -- The failures that `checkTxPayload` builds are not returned.
  unfoldable pub check_tx_payload : Transaction → Result CheckR
  check_tx_payload tx =
      if tx.category == "INIT_DID"
      then (do tx_data ← ext.deserialize_init_did tx.payload; ok pass)
      else if StrUtil.starts_with tx.category "CUSTOM:"
      then ok pass
      else ok pass

  -- the loop over `wallettoencderivedkeyMap`
  check_wallets : List ℕ → List (String × WalletToEncDerivedKey) → Result CheckR
  check_wallets master_key [] = ok pass
  check_wallets master_key ((key, value) ∷ rest) = elim (parse_caip_address key) [
    | failed err ↦ ok (fail_with_text (caip_error err))
    | caip c ↦
        (check_push_init_did_wallet_mapping ext c.namespace c.addr master_key value.signature
          >>= λ check. and_then check (check_wallets master_key rest))
  ]

  -- `tmp.setSignature(null)` on a copy, and its bytes
  abbrev unsigned_bytes : Transaction → Result (List ℕ)
  unsigned_bytes tx = do
    tmp ← ext.deserialize_tx (ext.serialize_tx tx)
    ok (ext.serialize_tx (record tmp { signature = [] }))

  -- the branch of INIT_DID
  check_init_did : Transaction → CaipAddr → Result CheckR
  unfolding check_wallets
  check_init_did tx c = do
    tmp_bytes ← unsigned_bytes tx
    init_did ← ext.deserialize_init_did tx.payload
    master_key ← hex0x_to_bytes ext.to_lower_case init_did.masterpubkey
    sig_check ← check_push_init_did_signature ext master_key tmp_bytes tx.signature
    and_then sig_check (
        check_push_init_did_sender ext c.addr master_key >>= λ sig_check2.
        and_then sig_check2 (check_wallets master_key init_did.wallettoencderivedkey))

  unfoldable pub check_tx_signature : Transaction → Result CheckR
  unfolding check_init_did has_min_size
  check_tx_signature tx = elim (parse_caip_address tx.sender) [
    | failed err ↦ ok (fail_with_text (caip_error err))
    | caip c ↦ fail_if (not (has_min_size tx.signature 4)) signature_too_small (
        if tx.category == "INIT_DID"
        then check_init_did tx c
        else (unsigned_bytes tx >>= λ tmp_bytes.
            check_push_network_signature ext c.namespace c.addr
              (message_bytes_to_hash_bytes ext tmp_bytes) tx.signature))
  ]

  -- the loop over the recipients
  check_recipients : List String → Result CheckR → Result CheckR
  check_recipients [] rest = rest
  check_recipients (recipient ∷ recipients) rest =
      fail_if (not (is_full_caip_address recipient)) (not_full_caip recipient)
        (check_recipients recipients rest)

  -- the statements after the loop
  check_after_recipients : Transaction → Result CheckR
  check_after_recipients tx =
      fail_if (not (has_min_size tx.salt 4)) salt_too_small
        (check_tx_payload tx >>= λ payload_check. and_then payload_check (check_tx_signature tx))

  unfoldable pub check_tx : Transaction → Result CheckR
  unfolding check_recipients check_after_recipients
  check_tx tx = and_then (check_validator_token_format tx.apitoken) (
      fail_if (not (nat_beq tx.type 0)) only_non_value (
        fail_if (not (is_full_caip_address tx.sender)) (not_full_caip tx.sender)
          (check_recipients tx.recipients (check_after_recipients tx))))
