-- ===== src/Base/Results.antt =====
-- Errors as values. A thrown `Error` is named by what its message says.
use mathlib.Core.Path.{◌≡◌, refl}
use mathlib.Core.Bool.{Bool, true, false}
use mathlib.Core.Logic.{◌⊎◌, inl, inr}

-- One constructor for each message that the modelled code throws or passes through.
pub data Error : Type 0 where
  assertion_failed null_check_failed str_empty_check_failed set_empty_check_failed : Error
  bad_hex invalid_caip bad_protobuf signer_out_of_index validator_signature_is_required : Error
  block_validation_failed undefined_property unsupported_node_type bad_address : Error
  bad_response out_of_retries invalid_input no_such_view : Error
  unique_violation foreign_key_violation not_null_violation : Error

pub data Result {ℓ} (A : Type ℓ) : Type ℓ where
  ok : A → Result A
  throw : Error → Result A

pub ok-injective {ℓ} : {A : Type ℓ} {a b : A} → ok a ≡ ok b → a ≡ b
ok-injective h = cc

pub Result-cases {ℓ} :
    {A : Type ℓ} (r : Result A) → ((a : A) × (r ≡ ok a)) ⊎ ((e : Error) × (r ≡ throw e))
Result-cases (ok a) = inl (a, refl)
Result-cases (throw e) = inr (e, refl)

-- `Check.isTrue`
abbrev pub guard : Bool → Error → Result (Unit {0})
guard false e = throw e
guard true e = ok tt

module _ {ℓ κ} {A : Type ℓ} {B : Type κ} where
  infixl 5 ◌>>=◌
  abbrev pub ◌>>=◌ : Result A → (A → Result B) → Result B
  ok a >>= f = f a
  throw e >>= f = throw e

  -- The parts of a sequence that succeeds, for proofs that do not open them.
  pub >>=-eq-ok :
      (first : Result A) (next : A → Result B) {last : B}
      → (first >>= next) ≡ ok last
      → (got : A) × (first ≡ ok got) × (next got ≡ ok last)
  >>=-eq-ok (throw e) next h = cc
  >>=-eq-ok (ok got) next h = (got, refl, h)

infixl 5 ◌>>◌
abbrev pub ◌>>◌ {κ} : {B : Type κ} → Result (Unit {0}) → Result B → Result B
m >> rest = m >>= λ _. rest
