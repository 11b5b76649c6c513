-- ===== src/BlockUtil/Patch/Laws.antt =====
-- A block with one patch more: who signed it.
use push_snode.Base.{
  ok-injective, ℕ, zero, suc, ◌-◌, ◌<◌, String, ◌≡◌, ◌↔◌, refl, sym, ◌∙◌, ap, subst, true, false,
  List, [], ◌∷◌, ◌++◌, Option, none, some, ok, arith, length, get_elem?, >>=-eq-ok, Bool-cases, inl,
  inr, nat_beq, ltb, string_eq, undefined_property,
}
use push_snode.Base.JsSet.{has}
use push_snode.Proto.{TransactionObj, Signer, Block, AttestBlockResult}
use push_snode.Ext.{Ext}
use push_snode.BlockUtil.Shards.{not_null}
use push_snode.BlockUtil.CheckR.{pass}
use push_snode.BlockUtil.Signers.{
  only_one_attestation, validator_view, recover_signer_address, check_block_as_snode,
}
use push_snode.BlockUtil.Signers.Laws.{IsSignedAt, check_block_as_snode_iff}
use push_snode.BlockUtil.Patch.{
  push_attestations, set_attestations, append_patch_as_validator, recover_patch_address,
}
use push_snode.BlockUtil.Patch.Attestations.{
  get_elem?-before, get_elem?-last, length-snoc, HaveAttestations, only_one-before, only_one-last,
  push-HaveAttestations, map-clear,
}

-- A block that `n` attestors have signed after the validator.
pub record IsSignedBy (n : ℕ) (validator : Signer) (block : Block) : Type 0 where
  pub signers_count : length block.signers ≡ suc n
  pub first_signer : get_elem? block.signers 0 ≡ some validator
  pub attestations : HaveAttestations n block.txobj

-- The block as the validator sends it to the attestors, with no signature but its own.
abbrev pub sent_block : Signer → Block → Block
sent_block validator block = record block { signers = validator ∷ [] }

-- The patch is signed by an address of the set.
abbrev pub IsPatchSigned : Ext → List String → Signer → Block → AttestBlockResult → Type 0
IsPatchSigned ext validators validator block ar =
    (node_id : String) × (recover_patch_address ext (sent_block validator block) ar ≡ ok node_id)
    × (has validators node_id ≡ true)

not_null-some : (o : Option Signer) {s : Signer} → not_null o undefined_property ≡ ok s → o ≡ some s
not_null-some none h = cc
not_null-some (some t) h = ap some (ok-injective h)

-- What the patch adds to the block.
record IsAppended (block block' : Block) (ar : AttestBlockResult) : Type 0 where
  txobj : List TransactionObj
  signer : Signer
  pushed : push_attestations block.txobj ar.attestordata ≡ ok txobj
  has_signer : ar.signer ≡ some signer
  same : block' ≡ record block { txobj = txobj; signers = block.signers ++ (signer ∷ []) }

append-IsAppended :
    (block block' : Block) (ar : AttestBlockResult)
    → append_patch_as_validator block ar ≡ ok block'
    → IsAppended block block' ar
unfolding append_patch_as_validator
append-IsAppended block block' ar appended =
    let (txobj, q, k) = >>=-eq-ok (push_attestations block.txobj ar.attestordata) _ appended in
    let (signer, r, l) = >>=-eq-ok (not_null ar.signer undefined_property) _ k in
    record {
      txobj = txobj;
      signer = signer;
      pushed = q;
      has_signer = not_null-some ar.signer r;
      same = sym (ok-injective l);
    }

module _ (n : ℕ) (validator : Signer) (block block' : Block) (ar : AttestBlockResult)
    (signed : IsSignedBy n validator block) (add : IsAppended block block' ar) where
  still_first : get_elem? block'.signers 0 ≡ some validator
  still_first = rw add.same (
      get_elem?-before block.signers add.signer 0 (omega (arith, signed.signers_count))
      ∙ signed.first_signer)

  one_more : length block'.signers ≡ suc (suc n)
  one_more = rw add.same (length-snoc block.signers add.signer ∙ ap suc signed.signers_count)

  last_signer : get_elem? block'.signers (suc n) ≡ some add.signer
  last_signer = rw add.same (
      subst (λ m. get_elem? (block.signers ++ (add.signer ∷ [])) m ≡ some add.signer)
        signed.signers_count (get_elem?-last block.signers add.signer))

  same_ts : block'.ts ≡ block.ts
  same_ts = ap (λ b. b.ts) add.same

  same_token : block'.attesttoken ≡ block.attesttoken
  same_token = ap (λ b. b.attesttoken) add.same

  same_view : validator_view block' ≡ validator_view block
  unfolding validator_view
  same_view = rw add.same (
      ap (λ os. record block { signers = []; txobj = os })
        (map-clear block.txobj add.txobj ar.attestordata add.pushed))

  module _ (ext : Ext) (clone : ext.deserialize_block (ext.serialize_block block) ≡ ok block)
      (clone' : ext.deserialize_block (ext.serialize_block block') ≡ ok block')
      (clone_sent : ext.deserialize_block (ext.serialize_block (sent_block validator block))
        ≡ ok (sent_block validator block)) where
    -- The patch is signed by the address of the last signature.
    recover-append_last :
        recover_signer_address ext block' (suc n)
        ≡ recover_patch_address ext (sent_block validator block) ar
    unfolding recover_signer_address recover_patch_address
    recover-append_last =
        let inside : ltb (suc n) (length block'.signers) ≡ true = ground (arith, one_more) in
        let other : nat_beq (suc n) 0 ≡ false = ground arith in
        let index : suc n - 1 ≡ n = omega arith in
        let ones : only_one_attestation n block'.txobj block'.txobj
            ≡ set_attestations block.txobj ar.attestordata =
          rw add.same (
            only_one-last n block.txobj add.txobj ar.attestordata signed.attestations add.pushed) in
        rw (inside, still_first, clone', clone_sent, other, index, last_signer, add.has_signer)
          (rw (ones, same_ts, same_token) refl)

    recover-append_before :
        (i : ℕ)
        → i < suc n
        → recover_signer_address ext block' i ≡ recover_signer_address ext block i
    unfolding recover_signer_address
    recover-append_before zero lt =
        let inside' : ltb 0 (length block'.signers) ≡ true = ground (arith, one_more) in
        let inside : ltb 0 (length block.signers) ≡ true = ground (arith, signed.signers_count) in
        rw (inside', inside, still_first, signed.first_signer, clone', clone, same_view) refl
    recover-append_before (suc i) lt =
        let inside' : ltb (suc i) (length block'.signers) ≡ true = ground (arith, one_more) in
        let inside : ltb (suc i) (length block.signers) ≡ true =
          ground (arith, signed.signers_count) in
        let other : nat_beq (suc i) 0 ≡ false = ground arith in
        let index : suc i - 1 ≡ i = omega arith in
        let here : get_elem? block'.signers (suc i) ≡ get_elem? block.signers (suc i) =
          rw add.same (
            get_elem?-before block.signers add.signer (suc i)
              (omega (arith, signed.signers_count))) in
        let ones : only_one_attestation i block'.txobj block'.txobj
            ≡ only_one_attestation i block.txobj block.txobj =
          rw add.same (
            only_one-before n i block.txobj add.txobj ar.attestordata signed.attestations
              (omega arith) add.pushed) in
        rw (inside', inside, still_first, signed.first_signer, clone', clone, other, index, here)
          (rw (ones, same_ts, same_token) refl)

    module _ (validators : List String) where
      all_signed :
          ((i : ℕ) → i < suc n → IsSignedAt ext validators block i)
          → IsPatchSigned ext validators validator block ar
          → (i : ℕ) → i < suc (suc n)
          → IsSignedAt ext validators block' i
      all_signed before (node_id, q, allowed) i lt = elim (Bool-cases (ltb i (suc n))) [
        | inl earlier ↦
            let (id, r, known) = before i (ground arith) in
            (id, recover-append_before i (ground arith) ∙ r, known)
        | inr last ↦
            subst (IsSignedAt ext validators block') (ground arith)
              ((node_id, recover-append_last ∙ q, allowed))
      ]

      check-append : (check_block_as_snode ext block' validators (suc (suc n)) ≡ ok pass) ↔ (
          (check_block_as_snode ext block validators (suc n) ≡ ok pass)
          × IsPatchSigned ext validators validator block ar)
      check-append =
          let new_block : _ = check_block_as_snode_iff ext validators block' (suc (suc n)) clone' in
          let old_block : _ = check_block_as_snode_iff ext validators block (suc n) clone in
          (
            λ h.
                let signed' : (i : ℕ) → i < suc (suc n) → IsSignedAt ext validators block' i =
                  (new_block.0 h).1 in
                let (node_id, q, allowed) = signed' (suc n) (omega arith) in
                (
                  old_block.1 (
                    signed.signers_count,
                    λ i lt.
                        let (id, r, known) = signed' i (omega arith) in
                        (id, sym (recover-append_before i lt) ∙ r, known),
                  ),
                  (node_id, sym recover-append_last ∙ q, allowed),
                ),
            λ (old, patch). new_block.1 (one_more, all_signed (old_block.0 old).1 patch),
          )

-- Take a block that is signed by its validator and `n` attestors and has `n` attestations for each
-- transaction, and a patch that appendPatchAsValidator puts into it. The result is such a block of
-- one attestor more, signed by the same validator. A storage node accepts it, with one signature
-- more asked for, exactly when it accepts the block before and the address that is recovered from
-- the patch, over the block as the validator sent it, is a validator. Each of the three blocks is
-- read back from its protobuf encoding: the block, the result, and the block as it was sent.
pub append_patch_as_validator-check :
    (ext : Ext) (validators : List String) (n : ℕ) (validator : Signer) (block block' : Block)
    (ar : AttestBlockResult)
    → IsSignedBy n validator block
    → append_patch_as_validator block ar ≡ ok block'
    → ext.deserialize_block (ext.serialize_block block) ≡ ok block
    → ext.deserialize_block (ext.serialize_block block') ≡ ok block'
    → ext.deserialize_block (ext.serialize_block (sent_block validator block))
      ≡ ok (sent_block validator block)
    → IsSignedBy (suc n) validator block'
      × ((check_block_as_snode ext block' validators (suc (suc n)) ≡ ok pass) ↔ (
          (check_block_as_snode ext block validators (suc n) ≡ ok pass)
          × IsPatchSigned ext validators validator block ar))
append_patch_as_validator-check ext validators n validator block block' ar signed appended clone
      clone' clone_sent =
    let add : IsAppended block block' ar = append-IsAppended block block' ar appended in
    (
      record {
        signers_count = one_more n validator block block' ar signed add;
        first_signer = still_first n validator block block' ar signed add;
        attestations = rw add.same (
            push-HaveAttestations n block.txobj add.txobj ar.attestordata signed.attestations
              add.pushed);
      },
      check-append n validator block block' ar signed add ext clone clone' clone_sent validators,
    )
