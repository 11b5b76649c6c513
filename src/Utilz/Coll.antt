-- ===== src/Utilz/Coll.antt =====
-- utilz/coll.ts: sets and maps. `arrayToSet` and `setToArray` are `JsSet.of_list` and the list of
-- a set itself; a `Set` that is `===` another has its members, so `isEqualSet` needs no shortcut.
pub mod Laws
mod Tests
use push_snode.Base.{
  Bool, false, List, [], ◌∷◌, ◌++◌, Option, none, some, Eq, filter, length, all, not, nat_beq,
  if◌then◌else◌,
}
use push_snode.Base.JsSet
use push_snode.Base.JsMap

module _ {ℓ} {A : Type ℓ} ⦃e : Eq A⦄ where
  unfoldable pub array_to_set : List A → List A
  array_to_set arr = JsSet.of_list arr

  -- `[1,2,3] - [2,3] = [1]`
  unfoldable pub substract_set : List A → List A → List A
  substract_set set1 set2 = JsSet.of_list (filter (λ x. not (JsSet.has set2 x)) set1)

  unfoldable pub intersect_set : List A → List A → List A
  intersect_set set1 set2 = JsSet.of_list (filter (λ x. JsSet.has set2 x) set1)

  unfoldable pub add_set : List A → List A → List A
  add_set set1 set2 = JsSet.of_list (set1 ++ set2)

  unfoldable pub is_equal_set : List A → List A → Bool
  is_equal_set a b =
      if not (nat_beq (length a) (length b)) then false else all (λ value. JsSet.has b value) a
