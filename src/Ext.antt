-- ===== src/Ext.antt =====
-- What the code calls and does not implement: hashing, signatures, address formats, protobuf, the
-- text encodings. Each is a function that may throw; a theorem that needs a law of one
-- states it among its hypotheses.
pub mod Toy
use push_snode.Base.{ℕ, Bool, String, List, Result}
use push_snode.Proto.{Transaction, Block, InitDid}

pub record Ext : Type 0 where
  -- `crypto.createHash('sha256')`
  pub sha256 : List ℕ → List ℕ
  -- `serializeBinary`, `deserializeBinary`
  pub serialize_tx : Transaction → List ℕ
  pub deserialize_tx : List ℕ → Result Transaction
  pub serialize_block : Block → List ℕ
  pub deserialize_block : List ℕ → Result Block
  pub deserialize_init_did : List ℕ → Result InitDid
  -- `recoverAddress(hashMessage(message), signature)` of ethers
  pub recover_address : List ℕ → List ℕ → Result String
  -- `verifyMessage` and `computeAddress` of ethers
  pub verify_message : List ℕ → List ℕ → Result String
  pub compute_address : List ℕ → Result String
  -- `getAddress(toHex0x(fromWords(bech32m.decode(address))))`
  pub push_addr_to_evm_addr : String → Result String
  -- `bs58.decode` and `nacl.sign.detached.verify`
  pub bs58_decode : String → Result (List ℕ)
  pub nacl_verify : List ℕ → List ℕ → List ℕ → Result Bool
  -- `Buffer.from(bytes).toString('utf8')`, `Buffer.from(str, 'utf-8')`
  pub bytes_utf_to_string : List ℕ → String
  pub string_to_bytes_utf : String → List ℕ
  pub to_lower_case : String → String
  -- `bytesToHex` of @noble/hashes
  pub bytes_to_hex : List ℕ → String
  -- `JSON.stringify(JSON.stringify(block.toObject()))`
  pub block_to_json : Block → String
