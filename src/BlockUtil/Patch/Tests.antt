-- ===== src/BlockUtil/Patch/Tests.antt =====
-- The toy block, and a second attestor.
use push_snode.Base.{
  ℕ, String, ◌≡◌, ◌↔◌, refl, List, [], ◌∷◌, some, none, Result, ok, throw, undefined_property,
  string_eq, map,
}
use push_snode.Proto.{Signer, Block, AttestBlockResult}
use push_snode.Ext.{Ext}
use push_snode.Ext.Toy.{toy, toy_tx, toy_block}
use push_snode.BlockUtil.CheckR.{pass}
use push_snode.BlockUtil.Signers.{check_block_as_snode}
use push_snode.BlockUtil.Patch.{append_patch_as_validator, push_attestations}
use push_snode.BlockUtil.Patch.Attestations.{HaveAttestations}
use push_snode.BlockUtil.Patch.Laws.{
  IsSignedBy, sent_block, IsPatchSigned, append_patch_as_validator-check,
}

abbrev validator : Signer
validator = record { sig = 1 ∷ [] }

abbrev patch : AttestBlockResult
patch = record { attestordata = record { vote = 2 } ∷ []; signer = some (record { sig = 3 ∷ [] }) }

abbrev patched_block : Block
patched_block = record toy_block {
  txobj =
      record {
        tx = some toy_tx;
        validatordata = some (record { vote = 1; didmapping = none });
        attestordata = record { vote = 1 } ∷ record { vote = 2 } ∷ [];
      }
      ∷ [];
  signers = record { sig = 1 ∷ [] } ∷ record { sig = 2 ∷ [] } ∷ record { sig = 3 ∷ [] } ∷ [];
}

-- A block is written as one byte for each of its signatures.
abbrev copy : List ℕ → Result Block
copy (a ∷ []) = ok (sent_block validator toy_block)
copy (a ∷ b ∷ []) = ok toy_block
copy (a ∷ b ∷ c ∷ bytes) = ok patched_block
copy [] = throw undefined_property

abbrev ext : Ext
ext = record toy {
  serialize_block = λ block. map (λ signer. 0) block.signers;
  deserialize_block = copy;
}

abbrev validators : List String
validators = "0xU" ∷ "0xV" ∷ []

appended : append_patch_as_validator toy_block patch ≡ ok patched_block
unfolding append_patch_as_validator push_attestations
appended = refl

signed : IsSignedBy 1 validator toy_block
unfolding HaveAttestations
signed = record { signers_count = refl; first_signer = refl; attestations = (refl, tt) }

append_patch_as_validator-check_example :
    IsSignedBy 2 validator patched_block
    × ((check_block_as_snode ext patched_block validators 3 ≡ ok pass) ↔ (
        (check_block_as_snode ext toy_block validators 2 ≡ ok pass)
        × IsPatchSigned ext validators validator toy_block patch))
append_patch_as_validator-check_example =
    append_patch_as_validator-check ext validators 1 validator toy_block patched_block patch signed
      appended refl refl refl
