-- ===== src/BlockUtil/Attestor/Laws.antt =====
-- A finalized block is one that a storage node accepts.
use push_snode.Base.{
  ℕ, zero, suc, ◌+◌, ◌-◌, ◌<◌, String, ◌≡◌, not, List, [], ◌∷◌, Result, ok, arith, length,
  Bool-cases, inl, inr, >>=-eq-ok, nat_beq, string_eq, Option-cases,
}
use push_snode.Proto.{TransactionObj, TxAttestorData, Block}
use push_snode.Ext.{Ext}
use push_snode.BlockUtil.CheckR.{CheckR, pass, fail_if, wrong_signature_count}
use push_snode.BlockUtil.Signers.{recover_signer_address, check_signers, check_block_as_snode}
use push_snode.BlockUtil.Signers.Laws.{IsSignedAt, check_signers_sound, check_block_as_snode_iff}
use push_snode.BlockUtil.Tx.{check_tx}
use push_snode.BlockUtil.Tx.Laws.{and_then_iff}
use push_snode.BlockUtil.Attestor.{
  Limits, check_txs, check_attestation_counts, check_validator_signature, check_signature_counts,
  check_block_as_attestor, check_votes, check_attestations, check_attestor_signatures,
  check_block_finalized,
}

module _ (ext : Ext) (limits : Limits) where
  check_txs-passes :
      (objs : List TransactionObj) (total : ℕ) (rest : ℕ → Result CheckR)
      → check_txs ext limits objs total rest ≡ ok pass
      → (t : ℕ) × (rest t ≡ ok pass)
  unfolding check_txs
  check_txs-passes [] total rest h = (total, h)
  check_txs-passes (o ∷ os) total rest h = elim (Option-cases o.tx) [
    | inl e ↦ cc (rw (e, check_txs) at h)
    | inr (tx, e) ↦
        let bytes : ℕ = length (ext.serialize_tx tx) in
        check_txs-passes os (total + bytes) rest
          ((and_then_iff (check_tx ext tx) (check_txs ext limits os (total + bytes) rest)).0
            (ground (arith, e))).1
  ]

  check_attestation_counts-passes :
      (objs : List TransactionObj) (n : ℕ) (rest : Result CheckR)
      → check_attestation_counts ext limits objs n rest ≡ ok pass
      → rest ≡ ok pass
  unfolding check_attestation_counts
  check_attestation_counts-passes [] n rest h = h
  check_attestation_counts-passes (o ∷ os) n rest h =
      check_attestation_counts-passes os n rest (ground arith)

  check_votes-passes :
      (votes : List TxAttestorData) (rest : Result CheckR)
      → check_votes ext limits votes rest ≡ ok pass
      → rest ≡ ok pass
  unfolding check_votes
  check_votes-passes [] rest h = h
  check_votes-passes (v ∷ vs) rest h = check_votes-passes vs rest (ground arith)

  check_attestations-passes :
      (objs : List TransactionObj) (n : ℕ) (rest : Result CheckR)
      → check_attestations ext limits objs n rest ≡ ok pass
      → rest ≡ ok pass
  unfolding check_attestations
  check_attestations-passes [] n rest h = h
  check_attestations-passes (o ∷ os) n rest h = elim (Option-cases o.tx) [
    | inl e ↦ cc (rw (e, check_attestations) at h)
    | inr (tx, e) ↦ check_attestations-passes os n rest (
        check_votes-passes o.attestordata (check_attestations ext limits os n rest)
          (ground (arith, e)))
  ]

  module _ (validators : List String) (block : Block) where
    check_validator_signature-passes :
        check_validator_signature ext limits validators block ≡ ok pass
        → IsSignedAt ext validators block 0
    unfolding check_validator_signature
    check_validator_signature-passes h =
        let (node_id, q, k) = >>=-eq-ok (recover_signer_address ext block 0) _ h in
        (node_id, q, ground arith)

    -- An attested block has a signature, and the first recovers to a validator.
    pub check_block_as_attestor-passes :
        (now : ℕ)
        → check_block_as_attestor ext limits block validators now ≡ ok pass
        → (0 < length block.signers) × IsSignedAt ext validators block 0
    unfolding check_block_as_attestor
    check_block_as_attestor-passes now h =
        let (total, k) =
          check_txs-passes block.txobj 0 (check_signature_counts ext limits validators block)
            (ground arith) in
        let (some_signer, k') = after_txs total k in
        (
          some_signer,
          check_validator_signature-passes (
              check_attestation_counts-passes block.txobj (length block.signers)
                (check_validator_signature ext limits validators block) k'),
        )
      where
        after_txs :
            (total : ℕ)
            → check_signature_counts ext limits validators block total ≡ ok pass
            → (0 < length block.signers)
              × (check_attestation_counts ext limits block.txobj
                    (length block.signers)
                    (check_validator_signature ext limits validators block)
                  ≡ ok pass)
        after_txs total q = ground arith

    signatures-passes :
        ext.deserialize_block (ext.serialize_block block) ≡ ok block
        → check_attestor_signatures ext limits validators block ≡ ok pass
        → check_signers ext validators block (length block.signers - 1) 1 ≡ ok pass
    unfolding check_attestor_signatures
    signatures-passes clone h = rw clone at h

    -- The statements after the checks of an attestor.
    finalized-passes :
        (n : ℕ)
        → ext.deserialize_block (ext.serialize_block block) ≡ ok block
        → fail_if
            (not (nat_beq (length block.signers) n))
            (wrong_signature_count (length block.signers) n)
            (check_attestation_counts ext limits block.txobj (length block.signers) (
              check_attestations ext limits block.txobj
                (length block.signers - 1)
                (check_attestor_signatures ext limits validators block)))
          ≡ ok pass
        → (length block.signers ≡ n)
          × (check_signers ext validators block (length block.signers - 1) 1 ≡ ok pass)
    finalized-passes n clone h = elim (Bool-cases (nat_beq (length block.signers) n)) [
      | inr other ↦ cc (rw other at h)
      | inl same ↦ (
        ground arith,
        signatures-passes clone (
            check_attestations-passes block.txobj (length block.signers - 1)
              (check_attestor_signatures ext limits validators block)
              (check_attestation_counts-passes block.txobj (length block.signers) _
                (rw same at h))),
      )
    ]

    finalized-IsSignedAt :
        (n : ℕ)
        → (length block.signers ≡ n)
        → IsSignedAt ext validators block 0
        → (0 < length block.signers)
        → check_signers ext validators block (length block.signers - 1) 1 ≡ ok pass
        → (i : ℕ) → i < n
        → IsSignedAt ext validators block i
    finalized-IsSignedAt n e first some_signer h zero lt = first
    finalized-IsSignedAt n e first some_signer h (suc i) lt =
        check_signers_sound ext validators block (length block.signers - 1) 1 h (suc i)
          (omega arith) (omega arith)

    -- A block that passes the checks of a finalized block passes those of a storage node, when
    -- the copy of the block by its protobuf encoding is the block.
    pub check_block_finalized-snode :
        (val_per_block now : ℕ)
        → ext.deserialize_block (ext.serialize_block block) ≡ ok block
        → check_block_finalized ext limits block validators val_per_block now ≡ ok pass
        → check_block_as_snode ext block validators val_per_block ≡ ok pass
    unfolding check_block_finalized
    check_block_finalized-snode n now clone h =
        let (attested, rest) =
          (and_then_iff (check_block_as_attestor ext limits block validators now) _).0 h in
        let (some_signer, first) = check_block_as_attestor-passes now attested in
        let (e, signed) = finalized-passes n clone rest in
        (check_block_as_snode_iff ext validators block n clone).1
          (e, finalized-IsSignedAt n e first some_signer signed)
