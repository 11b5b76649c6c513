-- ===== src/PushSdkUtil.antt =====
-- services/messaging-common/pushSdkUtil.ts: who signed a transaction. Bytes that are the UTF-8 of an
-- ASCII text are its codes. `SigCheck` is `CheckR`.
use Prim.Native.Char.{code}
use Prim.Native.String.{[] as nil, ◌∷◌ as cons}
use push_snode.Base.{
  ℕ, ◌+◌, ◌/◌, ◌%◌, String, not, List, [], ◌∷◌, ◌++◌, Result, ok, ◌>>=◌, ltb, if◌then◌else◌, ◌==◌,
  string_eq,
}
use push_snode.Ext.{Ext}
use push_snode.BlockUtil.CheckR.{
  CheckR, pass, fail_with_text, master_key_mismatch, sender_mismatch, unsupported_chain,
  wallet_mismatch, fail_if,
}

-- The digit of `toString(16)`, as a code.
abbrev hex_code : ℕ → ℕ
hex_code d = if ltb d 10 then b'0' + d else 87 + d

-- `toHex`, by the table `hexes`
unfoldable pub to_hex : List ℕ → List ℕ
to_hex [] = []
to_hex (b ∷ bs) = hex_code (b / 16) ∷ hex_code (b % 16) ∷ to_hex bs

unfoldable pub to_hex0x : List ℕ → List ℕ
unfolding to_hex
to_hex0x value = b'0' ∷ b'x' ∷ to_hex value

abbrev pub codes : String → List ℕ
codes nil = []
codes (cons c s) = code c ∷ codes s

module _ (ext : Ext) where
  -- `0x` and the hash, so that a wallet shows a short text
  unfoldable pub message_bytes_to_hash_bytes : List ℕ → List ℕ
  unfolding to_hex0x
  message_bytes_to_hash_bytes payload = to_hex0x (ext.sha256 payload)

  unfoldable pub build_connect_account_string : List ℕ → List ℕ
  unfolding to_hex
  build_connect_account_string master_public_key =
      codes "Connect Account To PUSH_DID:" ++ to_hex (ext.sha256 master_public_key)

  unfoldable pub check_push_init_did_signature : List ℕ → List ℕ → List ℕ → Result CheckR
  unfolding message_bytes_to_hash_bytes
  check_push_init_did_signature master_public_key msg_bytes sig = do
    master_addr ← ext.compute_address master_public_key
    recovered ← ext.verify_message (message_bytes_to_hash_bytes msg_bytes) sig
    fail_if (not (ext.to_lower_case recovered == ext.to_lower_case master_addr)) master_key_mismatch
        (ok pass)

  unfoldable pub check_push_init_did_sender : String → List ℕ → Result CheckR
  check_push_init_did_sender caip_addr master_public_key = do
    evm_addr ← ext.push_addr_to_evm_addr caip_addr
    master_evm_addr ← ext.compute_address master_public_key
    fail_if (not (ext.to_lower_case evm_addr == ext.to_lower_case master_evm_addr)) sender_mismatch
        (ok pass)

  -- the branches by namespace
  unfoldable pub check_push_network_signature : String → String → List ℕ → List ℕ → Result CheckR
  check_push_network_signature namespace caip_addr msg_bytes sig =
      if namespace == "push"
      then (do
        evm_addr ← ext.push_addr_to_evm_addr caip_addr
        recovered ← ext.verify_message msg_bytes sig
        fail_if (not (ext.to_lower_case recovered == ext.to_lower_case evm_addr)) sender_mismatch
            (ok pass))
      else if namespace == "eip155"
      then (do
        recovered ← ext.verify_message msg_bytes sig
        fail_if (not (recovered == caip_addr)) sender_mismatch (ok pass))
      else if namespace == "solana"
      then (do
        expected_pub_key ← ext.bs58_decode caip_addr
        valid ← ext.nacl_verify msg_bytes sig expected_pub_key
        fail_if (not valid) sender_mismatch (ok pass))
      else ok (fail_with_text unsupported_chain)

  -- a failure inside is wrapped
  abbrev in_wallet : CheckR → CheckR
  in_wallet pass = pass
  in_wallet (fail_with_text r) = fail_with_text (wallet_mismatch r)

  unfoldable pub check_push_init_did_wallet_mapping :
      String → String → List ℕ → List ℕ → Result CheckR
  unfolding build_connect_account_string
  check_push_init_did_wallet_mapping namespace caip_addr master_public_key sig = do
    check ←
        check_push_network_signature namespace caip_addr
          (build_connect_account_string master_public_key) sig
    ok (in_wallet check)
