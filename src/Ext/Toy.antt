-- ===== src/Ext/Toy.antt =====
-- A small instance of the external functions, and the data that the tests run on: a block of one
-- transaction, signed by a validator and an attestor.
use Prim.Native.Char.{code}
use Prim.Native.String.{[] as nil, ◌∷◌ as cons}
use push_snode.Base.{ℕ, String, true, List, [], ◌∷◌, some, none, ok, if◌then◌else◌, nat_beq, length}
use push_snode.Proto.{Transaction, Block}
use push_snode.Ext.{Ext}

abbrev ascii : String → List ℕ
ascii nil = []
ascii (cons c s) = code c ∷ ascii s

abbrev pub toy_tx : Transaction
toy_tx = record {
  type = 0;
  category = "CUSTOM:T";
  sender = "eip155:1:0xAAAAA";
  recipients = "eip155:1:0xBBBBBB" ∷ "eip155:1:0xCCCCC" ∷ [];
  payload = 1 ∷ 255 ∷ [];
  salt = 1 ∷ 2 ∷ 3 ∷ 4 ∷ [];
  apitoken = 1 ∷ [];
  signature = 1 ∷ 2 ∷ 3 ∷ 4 ∷ [];
  fee = "";
}

abbrev pub toy_block : Block
toy_block = record {
  ts = 1700000000123;
  attesttoken = 1 ∷ 2 ∷ 3 ∷ 4 ∷ [];
  txobj =
      record {
        tx = some toy_tx;
        validatordata = some (record { vote = 1; didmapping = none });
        attestordata = record { vote = 1 } ∷ [];
      }
      ∷ [];
  signers = record { sig = 1 ∷ [] } ∷ record { sig = 2 ∷ [] } ∷ [];
}

-- Every signature recovers to one address. A copy is the block above.
abbrev pub toy : Ext
toy = record {
  sha256 = λ bytes. length bytes ∷ [];
  serialize_tx = λ tx. tx.payload;
  deserialize_tx = λ bytes. ok toy_tx;
  serialize_block = λ block. 7 ∷ [];
  deserialize_block = λ bytes. ok toy_block;
  deserialize_init_did = λ bytes. ok (record {
    masterpubkey = "0x01";
    derivedkeyindex = 0;
    derivedpubkey = "0x02";
    wallettoencderivedkey = [];
  });
  recover_address = λ message sig. ok "0xV";
  verify_message = λ message sig. ok "0xAAAAA";
  compute_address = λ key. ok "0xAAAAA";
  push_addr_to_evm_addr = λ addr. ok "0xAAAAA";
  bs58_decode = λ text. ok (1 ∷ []);
  nacl_verify = λ message sig key. ok true;
  bytes_utf_to_string = λ bytes. if nat_beq (length bytes) 4 then "AT1a" else "VT1a";
  string_to_bytes_utf = ascii;
  to_lower_case = λ text. text;
  bytes_to_hex = λ bytes. "00";
  block_to_json = λ block. "{}";
}
