-- ===== src/Base/JsMap.antt =====
-- JavaScript's `Map`: pairs with distinct keys in the order of insertion, over `===`.
use mathlib.Core.Path.{◌≡◌, refl}
use mathlib.Core.Bool.{◌||◌}
use mathlib.Core.Option.{Option, none, some}
use mathlib.Core.List.{List, [], ◌∷◌}
use native.Mathlib.Omega.{arith}
use mathlib.Core.Logic.{inl, inr}
use push_snode.Base.Tests.{if◌then◌else◌, Bool-cases}
use push_snode.Base.Equality.{Eq, ◌==◌, ==_iff}
use push_snode.Base.JsSet.{has, IsDistinct}

abbrev pub JsMap {ℓ} : Type ℓ → Type ℓ → Type ℓ
JsMap K V = List (K × V)

module _ {ℓ} {K V : Type ℓ} ⦃e : Eq K⦄ where
  -- `Map.get`: `undefined` is `none`.
  unfoldable pub get : JsMap K V → K → Option V
  get [] k = none
  get ((j, v) ∷ m) k = if j == k then some v else get m k

  -- `Map.set`: a key that is there keeps its place.
  unfoldable pub set : JsMap K V → K → V → JsMap K V
  set [] k v = (k, v) ∷ []
  set ((j, w) ∷ m) k v = if j == k then (j, v) ∷ m else (j, w) ∷ set m k v

  -- `Map.keys()`, as the values that `new Set(...)` takes
  unfoldable pub keys : JsMap K V → List K
  keys [] = []
  keys ((k, v) ∷ m) = k ∷ keys m

  pub get-set :
      (m : JsMap K V) (k j : K) (v : V) → get (set m k v) j ≡ (if k == j then some v else get m j)
  unfolding get set
  get-set [] k j v = refl
  get-set ((i, w) ∷ m) k j v = ground (arith, get-set m k j v, ==_iff k j, ==_iff i k, ==_iff i j)

  pub has-keys-set :
      (m : JsMap K V) (k j : K) (v : V) → has (keys (set m k v)) j ≡ (has (keys m) j || k == j)
  unfolding keys set has
  has-keys-set [] k j v = ground (arith, ==_iff k j)
  has-keys-set ((i, w) ∷ m) k j v =
      ground (arith, has-keys-set m k j v, ==_iff k j, ==_iff i k, ==_iff i j)

  pub set-IsDistinct :
      (m : JsMap K V) (k : K) (v : V) → IsDistinct (keys m) → IsDistinct (keys (set m k v))
  unfolding keys set has
  set-IsDistinct [] k v d = (refl, tt)
  set-IsDistinct ((i, w) ∷ m) k v d = elim (Bool-cases (i == k)) [
    | inl q ↦ rw q d
    | inr q ↦
        rw q
          ((ground (arith, has-keys-set m k i v, ==_iff k i, ==_iff i k), set-IsDistinct m k v d.1))
  ]
