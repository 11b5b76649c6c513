-- ===== src/Proto.antt =====
-- generated/push/block_pb.d.ts: the messages of a block. `Uint8Array` is a list of bytes, an unset
-- message field is `none`, a vote is the number of its `VoteMap`, and the field `data` of a
-- transaction is `payload` here.
use push_snode.Base.{ℕ, String, List, Option}

pub record TxValidatorData : Type 0 where
  pub vote : ℕ
  pub didmapping : Option (List (String × String))

pub record TxAttestorData : Type 0 where
  pub vote : ℕ

pub record Transaction : Type 0 where
  pub type : ℕ
  pub category : String
  pub sender : String
  pub recipients : List String
  pub payload : List ℕ
  pub salt : List ℕ
  pub apitoken : List ℕ
  pub signature : List ℕ
  pub fee : String

pub record TransactionObj : Type 0 where
  pub tx : Option Transaction
  pub validatordata : Option TxValidatorData
  pub attestordata : List TxAttestorData

pub record Signer : Type 0 where
  pub sig : List ℕ

pub record Block : Type 0 where
  pub ts : ℕ
  pub attesttoken : List ℕ
  pub txobj : List TransactionObj
  pub signers : List Signer

pub record AttestBlockResult : Type 0 where
  pub attestordata : List TxAttestorData
  pub signer : Option Signer

-- The map of `InitDid` from a wallet to its encrypted key, of which the checks read the signature.
pub record WalletToEncDerivedKey : Type 0 where
  pub encderivedprivkey : List ℕ
  pub signature : List ℕ

pub record InitDid : Type 0 where
  pub masterpubkey : String
  pub derivedkeyindex : ℕ
  pub derivedpubkey : String
  pub wallettoencderivedkey : List (String × WalletToEncDerivedKey)

-- `Vote`
abbrev pub vote_unspecified : ℕ
vote_unspecified = 0

abbrev pub accepted : ℕ
accepted = 1

abbrev pub rejected : ℕ
rejected = 2
