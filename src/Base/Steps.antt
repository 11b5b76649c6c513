-- ===== src/Base/Steps.antt =====
-- Stateful code that may throw. What was written before the error stays written: the modelled
-- code runs its statements outside of transactions.
use mathlib.Core.Path.{◌≡◌, refl}
use push_snode.Base.Results.{Result, ok, throw}

abbrev pub Step {ℓ κ} : Type ℓ → Type κ → Type (ℓ ⊔ κ)
Step S A = S → S × Result A

module _ {ℓ κ ι} {S : Type ℓ} {A : Type κ} {B : Type ι} where
  abbrev pub continue : S × Result A → (A → Step S B) → S × Result B
  continue (s, ok a) f = f a s
  continue (s, throw e) f = (s, throw e)

  infixl 5 ◌>>=◌
  abbrev pub ◌>>=◌ : Step S A → (A → Step S B) → Step S B
  (m >>= f) s = continue (m s) f

module _ {ℓ κ} {S : Type ℓ} {A : Type κ} where
  abbrev pub return : A → Step S A
  return a s = (s, ok a)

  -- A computation without effects.
  abbrev pub lift : Result A → Step S A
  lift r s = (s, r)

-- Effects without a value.
abbrev pub write {ℓ} : {S : Type ℓ} → (S → S) → Step S (Unit {0})
write f s = (f s, ok tt)

infixl 5 ◌>>◌
abbrev pub ◌>>◌ {ℓ κ} : {S : Type ℓ} {B : Type κ} → Step S (Unit {0}) → Step S B → Step S B
m >> k = m >>= λ _. k

-- Inversion of a successful sequence.
pub >>=-eq-ok {ℓ κ ι} :
    {S : Type ℓ} {A : Type κ} {B : Type ι} (m : Step S A) (f : A → Step S B) {s s' : S} {b : B}
    → (m >>= f) s ≡ (s', ok b)
    → (t : S) × (a : A) × (m s ≡ (t, ok a)) × (f a t ≡ (s', ok b))
>>=-eq-ok m f {s = s} {s' = s'} {b = b} h = split (m s) refl h
  where
    split :
        (r : _)
        → m s ≡ r
        → continue r f ≡ (s', ok b)
        → (t : _) × (a : _) × (m s ≡ (t, ok a)) × (f a t ≡ (s', ok b))
    split (t, ok a) q k = (t, a, q, k)
    split (t, throw e) q k = cc

-- A predicate on states that a step keeps, whatever its outcome.
abbrev pub Keeps {ℓ κ ι} : {S : Type ℓ} {A : Type κ} → (S → Type ι) → Step S A → Type (ℓ ⊔ ι)
Keeps {S = S} P m = (s : S) → P s → P (m s).0

continue-Keeps {ℓ κ ι η} :
    {S : Type ℓ} {A : Type κ} {B : Type ι} (P : S → Type η) (r : S × Result A) (f : A → Step S B)
    → P r.0
    → ((a : A) → Keeps P (f a))
    → P (continue r f).0
continue-Keeps P (t, ok a) f k q = q a t k
continue-Keeps P (t, throw e) f k q = k

pub >>=-Keeps {ℓ κ ι η} :
    {S : Type ℓ} {A : Type κ} {B : Type ι} (P : S → Type η) (m : Step S A) (f : A → Step S B)
    → Keeps P m
    → ((a : A) → Keeps P (f a))
    → Keeps P (m >>= f)
>>=-Keeps P m f p q s h = continue-Keeps P (m s) f (p s h) q
