-- ===== src/BlockUtil/Signers/Laws.antt =====
-- When a storage node accepts the signatures of a block.
use push_snode.Base.{
  subst, ℕ, zero, suc, ◌+◌, ◌≤◌, ◌<◌, String, ◌≡◌, ◌↔◌, refl, true, List, ok, arith, length,
  Bool-cases, inl, inr, >>=-eq-ok, string_eq, nat_beq,
}
use push_snode.Base.JsSet.{has}
use push_snode.Proto.{Block}
use push_snode.Ext.{Ext}
use push_snode.BlockUtil.CheckR.{pass}
use push_snode.BlockUtil.Signers.{recover_signer_address, check_signers, check_block_as_snode}

module _ (ext : Ext) (validators : List String) (block : Block) where
  -- Signature `i` recovers to an address of the set.
  abbrev pub IsSignedAt : ℕ → Type 0
  IsSignedAt i =
      (node_id : String) × (recover_signer_address ext block i ≡ ok node_id)
      × (has validators node_id ≡ true)

  abbrev AreSigned : ℕ → ℕ → Type 0
  AreSigned count first = (i : ℕ) → first ≤ i → i < first + count → IsSignedAt i

  check_signers_step :
      (count first : ℕ)
      → check_signers ext validators block (suc count) first ≡ ok pass
      → IsSignedAt first × (check_signers ext validators block count (suc first) ≡ ok pass)
  unfolding check_signers
  check_signers_step count first h =
      let (node_id, q, k) = >>=-eq-ok (recover_signer_address ext block first) _ h in
      elim (Bool-cases (has validators node_id)) [
        | inl allowed ↦ ((node_id, q, allowed), rw allowed at k)
        | inr unknown ↦ cc (rw unknown at k)
      ]

  pub check_signers_sound :
      (count first : ℕ)
      → check_signers ext validators block count first ≡ ok pass
      → AreSigned count first
  check_signers_sound zero first h i lo hi = absurd (omega arith)
  check_signers_sound (suc count) first h i lo hi =
      let (here, k) = check_signers_step count first h in
      elim (Bool-cases (nat_beq first i)) [
        | inl q ↦ subst IsSignedAt (ground arith) here
        | inr q ↦ check_signers_sound count (suc first) k i (ground arith) (omega arith)
      ]

  pub check_signers_complete :
      (count first : ℕ)
      → AreSigned count first
      → check_signers ext validators block count first ≡ ok pass
  unfolding check_signers
  check_signers_complete zero first h = refl
  check_signers_complete (suc count) first h =
      let (node_id, q, allowed) = h first (omega arith) (omega arith) in
      rw (q, allowed)
        (check_signers_complete count (suc first) (λ i lo hi. h i (omega arith) (omega arith)))

  -- A storage node accepts a block exactly when it has as many signatures as the contract asks
  -- for and each of them recovers to an address of the validator set.
  pub check_block_as_snode_iff :
      (val_per_block : ℕ)
      → ext.deserialize_block (ext.serialize_block block) ≡ ok block
      → (check_block_as_snode ext block validators val_per_block ≡ ok pass)
        ↔ ((length block.signers ≡ val_per_block) × ((i : ℕ) → i < val_per_block → IsSignedAt i))
  unfolding check_block_as_snode
  check_block_as_snode_iff n clone = (to, from)
    where
      to :
          check_block_as_snode ext block validators n ≡ ok pass
          → (length block.signers ≡ n) × ((i : ℕ) → i < n → IsSignedAt i)
      to h = elim (Bool-cases (nat_beq (length block.signers) n)) [
        | inl same ↦
            let e : length block.signers ≡ n = ground arith in
            (
              e,
              λ i hi.
                  check_signers_sound (length block.signers) 0 (rw (same, clone) at h) i
                    (omega arith) (omega arith),
            )
        | inr other ↦ cc (rw other at h)
      ]

      from :
          (length block.signers ≡ n) × ((i : ℕ) → i < n → IsSignedAt i)
          → check_block_as_snode ext block validators n ≡ ok pass
      from (e, signed) =
          let same : nat_beq (length block.signers) n ≡ true = ground arith in
          rw (same, clone)
            (check_signers_complete (length block.signers) 0 (λ i lo hi. signed i (omega arith)))
