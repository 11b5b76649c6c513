-- ===== src/BlockUtil/Attestor.antt =====
-- The checks of a block by an attestor and of a finalized block. The limits come from the
-- environment, and the time of the check is an argument.
pub mod Laws
use push_snode.Base.{
  ℕ, zero, suc, ◌+◌, ◌-◌, ◌*◌, String, Bool, true, false, not, ◌&&◌, ◌||◌, List, [], ◌∷◌, Option,
  none, some, Result, ok, throw, ◌>>=◌, ltb, leb, nat_beq, if◌then◌else◌, length, get_elem?,
  string_eq, nat_eq,
}
use push_snode.Base.JsSet.{has}
use push_snode.Proto.{Transaction, TransactionObj, TxValidatorData, TxAttestorData, Block}
use push_snode.Ext.{Ext}
use push_snode.BlockUtil.CheckR.{
  CheckR, pass, fail_with_text, block_is_full, block_is_too_old, attest_token_too_small,
  empty_transaction, transaction_too_big, invalid_validator_data, total_size_exceeded, no_signature,
  attestations_do_not_match, invalid_attestor_data, unregistered_validator, wrong_signature_count,
  and_then, fail_if,
}
use push_snode.BlockUtil.Signers.{recover_signer_address, check_signers}
use push_snode.BlockUtil.Tx.{has_min_size, check_attest_token_format, check_tx}

pub record Limits : Type 0 where
  pub max_transaction_size_bytes : ℕ
  pub max_total_transaction_size_bytes : ℕ
  pub max_transactions_per_block : ℕ
  pub attestor_max_block_age_seconds : ℕ

abbrev pub valid_validator_votes : List ℕ
valid_validator_votes = 1 ∷ []

-- An attestor may reject, and the vote is valid.
abbrev pub valid_attestor_votes : List ℕ
valid_attestor_votes = 1 ∷ 2 ∷ []

-- `validatordata` is there, with an accepting vote
abbrev valid_validatordata : Option TxValidatorData → Bool
valid_validatordata none = false
valid_validatordata (some d) = has valid_validator_votes d.vote

-- `Math.abs(a - b)`
abbrev distance : ℕ → ℕ → ℕ
distance a b = (a - b) + (b - a)

module _ (ext : Ext) (limits : Limits) where
  -- The loop over the transactions; `rest` are the statements after it, with the total size.
  check_txs : List TransactionObj → ℕ → (ℕ → Result CheckR) → Result CheckR
  check_txs [] total_tx_bytes rest = rest total_tx_bytes
  check_txs (o ∷ os) total_tx_bytes rest = elim o.tx [
    | none ↦ ok (fail_with_text empty_transaction)
    | some tx ↦
        let tx_bytes = length (ext.serialize_tx tx) in
        fail_if (ltb limits.max_transaction_size_bytes tx_bytes) transaction_too_big (
          fail_if (not (valid_validatordata o.validatordata)) invalid_validator_data (
            check_tx ext tx >>= λ check1.
            and_then check1 (check_txs os (total_tx_bytes + tx_bytes) rest)))
  ]

  -- As many attestations for each transaction as there are signatures of attestors.
  check_attestation_counts : List TransactionObj → ℕ → Result CheckR → Result CheckR
  check_attestation_counts [] sig_count rest = rest
  check_attestation_counts (o ∷ os) sig_count rest =
      fail_if (not (nat_beq (length o.attestordata) (sig_count - 1))) attestations_do_not_match
        (check_attestation_counts os sig_count rest)

  -- the check of signature 0
  check_validator_signature : List String → Block → Result CheckR
  check_validator_signature validators block = do
    node_id ← recover_signer_address ext block 0
    fail_if (not (has validators node_id)) (unregistered_validator node_id) (ok pass)

  -- the statements after the loop over the transactions
  check_signature_counts : List String → Block → ℕ → Result CheckR
  check_signature_counts validators block total_tx_bytes =
      fail_if (ltb limits.max_total_transaction_size_bytes total_tx_bytes) total_size_exceeded (
        fail_if (nat_beq (length block.signers) 0) no_signature (
          check_attestation_counts block.txobj (length block.signers)
            (check_validator_signature validators block)))

  unfoldable pub check_block_as_attestor : Block → List String → ℕ → Result CheckR
  unfolding check_signature_counts check_txs check_attestation_counts check_validator_signature
  check_block_as_attestor block validators now =
      and_then (check_attest_token_format ext block.attesttoken) (
        fail_if (leb limits.max_transactions_per_block (length block.txobj)) block_is_full (
          fail_if
            (ltb 0 limits.attestor_max_block_age_seconds
              && ltb (1000 * limits.attestor_max_block_age_seconds) (distance block.ts now))
            block_is_too_old
            (fail_if (not (has_min_size block.attesttoken 4)) attest_token_too_small
              (check_txs block.txobj 0 (check_signature_counts validators block)))))

  check_votes : List TxAttestorData → Result CheckR → Result CheckR
  check_votes [] rest = rest
  check_votes (a ∷ as') rest =
      fail_if (not (has valid_attestor_votes a.vote)) invalid_attestor_data (check_votes as' rest)

  -- the loop over the votes of the attestors
  check_attestations : List TransactionObj → ℕ → Result CheckR → Result CheckR
  unfolding check_votes
  check_attestations [] attestor_count rest = rest
  check_attestations (o ∷ os) attestor_count rest = elim o.tx [
    | none ↦ ok (fail_with_text empty_transaction)
    | some tx ↦
        fail_if (not (nat_beq (length o.attestordata) attestor_count)) invalid_attestor_data
          (check_votes o.attestordata (check_attestations os attestor_count rest))
  ]

  -- The copy `tmpBlock` of the source is made, and then not used.
  check_attestor_signatures : List String → Block → Result CheckR
  check_attestor_signatures validators block =
      ext.deserialize_block (ext.serialize_block block) >>= λ _.
      check_signers ext validators block (length block.signers - 1) 1

  unfoldable pub check_block_finalized : Block → List String → ℕ → ℕ → Result CheckR
  unfolding check_block_as_attestor check_attestations check_attestor_signatures
  check_block_finalized block validators val_per_block now =
      check_block_as_attestor block validators now >>= λ check1. and_then check1 (
        fail_if (not (nat_beq (length block.signers) val_per_block))
          (wrong_signature_count (length block.signers) val_per_block)
          (check_attestation_counts block.txobj (length block.signers) (
            check_attestations block.txobj (length block.signers - 1)
              (check_attestor_signatures validators block))))
