-- ===== src/Base/Equality.antt =====
-- `===` as an interface with its law, at numbers and at strings.
use Prim.Native.Nat.{ℕ}
use Prim.Native.String.{String}
use mathlib.Core.Path.{◌≡◌, refl, subst}
use mathlib.Core.Logic.{◌↔◌}
use mathlib.Core.Bool.{Bool, true, ◌&&◌}
use native.Mathlib.Omega.{arith}
use text.Mathlib.Text.{◌==◌ as str_beq}
use text.Mathlib.TextEquality.{eq_iff}
use push_snode.Base.Tests.{nat_beq, nat_beq_iff}

pub record Eq {ℓ} (A : Type ℓ) : Type ℓ where
  pub same : A → A → Bool
  pub same_sound : (a b : A) → same a b ≡ true → a ≡ b
  pub same_refl : (a : A) → same a a ≡ true

module _ {ℓ} {A : Type ℓ} ⦃e : Eq A⦄ where
  infix 50 ◌==◌
  abbrev pub ◌==◌ : A → A → Bool
  a == b = e.same a b

  pub ==_self : (a : A) → (a == a) ≡ true
  ==_self a = e.same_refl a

  -- The law at the instance in scope.
  pub ==_iff : (a b : A) → ((a == b) ≡ true) ↔ (a ≡ b)
  ==_iff a b = (e.same_sound a b, λ h. subst (λ x. (a == x) ≡ true) h (==_self a))

instance abbrev pub string_eq : Eq String
string_eq = record {
  same = str_beq;
  same_sound = λ a b. (eq_iff a b).0;
  same_refl = λ a. (eq_iff a a).1 refl;
}

instance abbrev pub nat_eq : Eq ℕ
nat_eq = record {
  same = nat_beq;
  same_sound = λ a b. (nat_beq_iff a b).0;
  same_refl = λ a. (nat_beq_iff a a).1 refl;
}

-- Tuples, as the composite key of a table.
module _ {ℓ κ} {A : Type ℓ} {B : Type κ} ⦃d : Eq A⦄ ⦃e : Eq B⦄ where
  abbrev pub pair_same : A × B → A × B → Bool
  pair_same (a, b) (a', b') = d.same a a' && e.same b b'

  pub pair_same_sound : (x y : A × B) → pair_same x y ≡ true → x ≡ y
  pair_same_sound (a, b) (a', b') h =
      let p : a ≡ a' = d.same_sound a a' (ground arith) in
      let q : b ≡ b' = e.same_sound b b' (ground arith) in cc

  pub pair_same_refl : (x : A × B) → pair_same x x ≡ true
  pair_same_refl (a, b) = ground (arith, d.same_refl a, e.same_refl b)

  instance abbrev pub pair_eq : Eq (A × B)
  pair_eq = record { same = pair_same; same_sound = pair_same_sound; same_refl = pair_same_refl }
