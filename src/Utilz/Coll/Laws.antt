-- ===== src/Utilz/Coll/Laws.antt =====
-- The set operations of `Coll` are the operations on members, and their results are sets.
use push_snode.Base.{
  ◌≡◌, ◌↔◌, ◌++◌, ◌∷◌, [], List, true, ◌&&◌, ◌||◌, not, Eq, all, arith, filter, refl, ==_iff,
}
use push_snode.Base.JsSet.{
  has, IsDistinct, IsSubset, IsSubset-of_length, length-le_of_IsSubset, has-of_list, has-filter,
  has-append,
}
use push_snode.Utilz.Coll.{substract_set, intersect_set, add_set, is_equal_set}

module _ {ℓ} {A : Type ℓ} ⦃e : Eq A⦄ where
  pub has-substract_set :
      (s t : List A) (a : A) → has (substract_set s t) a ≡ (has s a && not (has t a))
  unfolding substract_set
  has-substract_set s t a =
      ground
        (arith, has-of_list (filter (λ x. not (has t x)) s) a, has-filter (λ x. not (has t x)) s a)

  pub has-intersect_set : (s t : List A) (a : A) → has (intersect_set s t) a ≡ (has s a && has t a)
  unfolding intersect_set
  has-intersect_set s t a =
      ground (arith, has-of_list (filter (λ x. has t x) s) a, has-filter (λ x. has t x) s a)

  pub has-add_set : (s t : List A) (a : A) → has (add_set s t) a ≡ (has s a || has t a)
  unfolding add_set
  has-add_set s t a = ground (arith, has-of_list (s ++ t) a, has-append s t a)

  IsSubset_of_all :
      (s t : List A) (a : A) → all (λ x. has t x) s ≡ true → has s a ≡ true → has t a ≡ true
  unfolding has
  IsSubset_of_all [] t a h q = cc
  IsSubset_of_all (x ∷ s) t a h q = ground (arith, IsSubset_of_all s t a, ==_iff x a)

  all_of_IsSubset : (s t : List A) → IsSubset s t → all (λ x. has t x) s ≡ true
  unfolding has
  all_of_IsSubset [] t h = refl
  all_of_IsSubset (x ∷ s) t h =
      ground (arith, h x, ==_iff x x, all_of_IsSubset s t (λ a q. h a (ground arith)))

  same_members : (s t : List A) → IsSubset s t → IsSubset t s → (a : A) → has s a ≡ has t a
  same_members s t h k a = ground (arith, h a, k a)

  -- `isEqualSet` of two sets is true exactly when they have the same members, in whatever order.
  pub is_equal_set_iff :
      (s t : List A)
      → IsDistinct s
      → IsDistinct t
      → (is_equal_set s t ≡ true) ↔ ((a : A) → has s a ≡ has t a)
  unfolding is_equal_set
  is_equal_set_iff s t d1 d2 = (
    (λ h.
        let sub : IsSubset s t = λ a. IsSubset_of_all s t a (ground arith) in
        same_members s t sub (IsSubset-of_length s t d1 sub (ground arith))),
    (λ h.
        let sub : IsSubset s t = λ a q. ground (arith, h a) in
        let sup : IsSubset t s = λ a q. ground (arith, h a) in
        ground (
          arith,
          length-le_of_IsSubset s t d1 sub,
          length-le_of_IsSubset t s d2 sup,
          all_of_IsSubset s t sub,
        )),
  )
