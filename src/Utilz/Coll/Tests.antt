-- ===== src/Utilz/Coll/Tests.antt =====
-- The examples in the comments of utilz/coll.ts.
use push_snode.Base.{ℕ, ◌≡◌, refl, ◌∷◌, [], true, false, nat_eq}
use push_snode.Utilz.Coll.{substract_set, intersect_set, add_set, is_equal_set}
use push_snode.Base.JsSet.{of_list}

coll_comments :
    (substract_set {A = ℕ} (1 ∷ 2 ∷ 3 ∷ []) (2 ∷ 3 ∷ []) ≡ 1 ∷ [])
    × (intersect_set {A = ℕ} (1 ∷ 2 ∷ 3 ∷ []) (2 ∷ 3 ∷ []) ≡ 2 ∷ 3 ∷ [])
    × (add_set {A = ℕ} (1 ∷ 2 ∷ []) (2 ∷ 3 ∷ []) ≡ 1 ∷ 2 ∷ 3 ∷ [])
    × (is_equal_set {A = ℕ} (1 ∷ 2 ∷ []) (2 ∷ 1 ∷ []) ≡ true)
    × (is_equal_set {A = ℕ} (1 ∷ 2 ∷ []) (2 ∷ 3 ∷ []) ≡ false)
unfolding substract_set intersect_set add_set is_equal_set of_list
coll_comments = (refl, refl, refl, refl, refl)
