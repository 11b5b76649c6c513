-- ===== src/BlockUtil/CheckR.antt =====
-- `CheckR` and `SigCheck`: passed, or failed with what the text says. A check that throws is a
-- `throw` around it.
use push_snode.Base.{ℕ, String, Bool, Result, ok, if◌then◌else◌}
use push_snode.Utilz.ChainUtil.{CaipError}

pub data Reason : Type 0 where
  invalid_token block_is_full block_is_too_old attest_token_too_small empty_transaction : Reason
  transaction_too_big invalid_validator_data total_size_exceeded no_signature : Reason
  attestations_do_not_match invalid_attestor_data salt_too_small signature_too_small : Reason
  only_non_value master_key_mismatch sender_mismatch unsupported_chain : Reason
  wallet_mismatch : Reason → Reason
  caip_error : CaipError → Reason
  not_full_caip unregistered_validator : String → Reason
  wrong_signature_count : ℕ → ℕ → Reason

pub data CheckR : Type 0 where
  pass : CheckR
  fail_with_text : Reason → CheckR

-- `if (!check.success) return check`, and the statements after it
abbrev pub and_then : CheckR → Result CheckR → Result CheckR
and_then pass rest = rest
and_then (fail_with_text r) rest = ok (fail_with_text r)

-- `if (bad) return failWithText(reason)`, and the statements after it
abbrev pub fail_if : Bool → Reason → Result CheckR → Result CheckR
fail_if bad reason rest = if bad then ok (fail_with_text reason) else rest
