-- ===== src/BlockUtil/Tx/Laws.antt =====
-- What an accepted transaction satisfies.
use push_snode.Base.{
  ℕ, ◌≤◌, String, ◌≡◌, ◌↔◌, refl, Bool, true, false, List, [], ◌∷◌, Result, ok, throw, ◌>>=◌, arith,
  length, All, Bool-cases, inl, inr, >>=-eq-ok, string_eq, ◌==◌, ==_iff, if◌then◌else◌,
}
use push_snode.Proto.{Transaction, InitDid}
use push_snode.Ext.{Ext}
use push_snode.Utilz.StrUtil
use push_snode.Utilz.ChainUtil.{is_full_caip_address}
use push_snode.BlockUtil.CheckR.{Reason, CheckR, pass, fail_with_text, and_then, fail_if}
use push_snode.BlockUtil.Tx.{
  has_min_size, check_validator_token_format, check_tx_payload, check_tx_signature,
  check_recipients, check_after_recipients, check_tx,
}

abbrev IsFull : String → Type 0
IsFull addr = is_full_caip_address addr ≡ true

-- The payload of an INIT_DID can be read.
abbrev pub IsReadable : Ext → Transaction → Type 0
IsReadable ext tx =
    (tx.category ≡ "INIT_DID") → (did : InitDid) × (ext.deserialize_init_did tx.payload ≡ ok did)

pub record IsAccepted (ext : Ext) (tx : Transaction) : Type 0 where
  pub token : check_validator_token_format ext tx.apitoken ≡ pass
  pub non_value : tx.type ≡ 0
  pub sender_full : IsFull tx.sender
  pub recipients_full : All IsFull tx.recipients
  pub salt : 4 ≤ length tx.salt
  pub readable : check_tx_payload ext tx ≡ ok pass
  pub signed : check_tx_signature ext tx ≡ ok pass

fail_if-eq-pass :
    (bad : Bool) (r : Reason) (rest : Result CheckR)
    → (fail_if bad r rest ≡ ok pass) ↔ ((bad ≡ false) × (rest ≡ ok pass))
fail_if-eq-pass bad r rest = ground arith

check_recipients_iff :
    (ext : Ext) (rs : List String) (rest : Result CheckR)
    → (check_recipients ext rs rest ≡ ok pass) ↔ (All IsFull rs × (rest ≡ ok pass))
unfolding check_recipients
check_recipients_iff ext [] rest = ((λ h. (tt, h)), (λ h. h.1))
check_recipients_iff ext (r ∷ rs) rest = ground (arith, check_recipients_iff ext rs rest)

if_same : (b : Bool) (r : Result CheckR) → (if b then r else r) ≡ r
if_same true r = refl
if_same false r = refl

has_min_size-four : (a : List ℕ) → (has_min_size a 4 ≡ true) ↔ (4 ≤ length a)
unfolding has_min_size
has_min_size-four a = ground arith

pub and_then_iff :
    (check : Result CheckR) (rest : Result CheckR)
    → ((check >>= λ c. and_then c rest) ≡ ok pass) ↔ ((check ≡ ok pass) × (rest ≡ ok pass))
and_then_iff (throw e) rest = ((λ h. cc), (λ h. cc h.0))
and_then_iff (ok pass) rest = ((λ h. (refl, h)), (λ h. h.1))
and_then_iff (ok (fail_with_text r)) rest = ((λ h. cc), (λ h. cc h.0))

check_after_recipients_iff :
    (ext : Ext) (tx : Transaction)
    → (check_after_recipients ext tx ≡ ok pass) ↔ (
        (4 ≤ length tx.salt)
        × (check_tx_payload ext tx ≡ ok pass)
        × (check_tx_signature ext tx ≡ ok pass))
unfolding check_after_recipients
check_after_recipients_iff ext tx = ground (
  arith,
  has_min_size-four tx.salt,
  and_then_iff (check_tx_payload ext tx) (check_tx_signature ext tx),
)

-- A transaction passes exactly when its token has the validators' prefix, its type is 0, its
-- sender and recipients are full CAIP addresses, its salt has at least four bytes, and the checks
-- of its payload and of its signature pass.
pub check_tx_iff : (ext : Ext) (tx : Transaction) → (check_tx ext tx ≡ ok pass) ↔ IsAccepted ext tx
unfolding check_tx
check_tx_iff ext tx = (to, from)
  where
    to : check_tx ext tx ≡ ok pass → IsAccepted ext tx
    to h = ground (
      arith,
      check_recipients_iff ext tx.recipients (check_after_recipients ext tx),
      check_after_recipients_iff ext tx,
    )

    from : IsAccepted ext tx → check_tx ext tx ≡ ok pass
    from v = ground (
      arith,
      check_recipients_iff ext tx.recipients (check_after_recipients ext tx),
      check_after_recipients_iff ext tx,
    )

-- No payload is refused by its content: a transaction of any category passes this check, and one
-- of INIT_DID as soon as its payload can be read.
pub check_tx_payload_iff :
    (ext : Ext) (tx : Transaction) → (check_tx_payload ext tx ≡ ok pass) ↔ IsReadable ext tx
unfolding check_tx_payload
check_tx_payload_iff ext tx = elim (Bool-cases (tx.category == "INIT_DID")) [
  | inl q ↦ (
    (λ h _.
        let (did, e, _) = >>=-eq-ok (ext.deserialize_init_did tx.payload) _ (rw q at h) in
        (did, e)),
    (λ r. let (did, e) = r ((==_iff tx.category "INIT_DID").0 q) in rw (q, e)),
  )
  | inr q ↦ (
    (λ h e. cc ((==_iff tx.category "INIT_DID").1 e, q)),
    (λ r. rw q (if_same (StrUtil.starts_with tx.category "CUSTOM:") (ok pass))),
  )
]
