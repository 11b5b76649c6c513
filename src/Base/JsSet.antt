-- ===== src/Base/JsSet.antt =====
-- JavaScript's `Set`: distinct values in the order of insertion, over `===`.
use Prim.Native.Nat.{◌≤◌, ◌<◌}
use mathlib.Core.Path.{◌≡◌, refl, sym, ◌∙◌}
use mathlib.Core.Logic.{inl, inr}
use mathlib.Core.Bool.{Bool, true, false, not, ◌&&◌, ◌||◌}
use mathlib.Core.List.{List, [], ◌∷◌, ◌++◌, append-nil, append_assoc}
use native.Mathlib.Omega.{arith}
use push_snode.Base.Tests.{if◌then◌else◌, Bool-cases}
use push_snode.Base.Lists.{length, filter, length-filter-le}
use push_snode.Base.Equality.{Eq, ◌==◌, ==_iff, ==_self}

module _ {ℓ} {A : Type ℓ} ⦃e : Eq A⦄ where
  -- `Set.has`, and `Array.includes`
  unfoldable pub has : List A → A → Bool
  has [] a = false
  has (x ∷ xs) a = x == a || has xs a

  -- `Set.add`: a value that is there keeps its place.
  unfoldable pub add : List A → A → List A
  unfolding has
  add s a = if has s a then s else s ++ a ∷ []

  -- `for (x of arr) s.add(x)`
  unfoldable pub add_all : List A → List A → List A
  unfolding add
  add_all s [] = s
  add_all s (x ∷ xs) = add_all (add s x) xs

  -- `new Set(arr)`
  unfoldable pub of_list : List A → List A
  unfolding add_all
  of_list xs = add_all [] xs

  -- No value occurs twice, which every `Set` guarantees.
  abbrev pub IsDistinct : List A → Type 0
  IsDistinct [] = Unit
  IsDistinct (x ∷ xs) = (has xs x ≡ false) × IsDistinct xs

  pub has-append : (xs ys : List A) (a : A) → has (xs ++ ys) a ≡ (has xs a || has ys a)
  unfolding has
  has-append [] ys a = refl
  has-append (x ∷ xs) ys a = ground (arith, has-append xs ys a)

  pub has-add : (s : List A) (x a : A) → has (add s x) a ≡ (has s a || x == a)
  unfolding add
  has-add s x a = ground (arith, has-append s (x ∷ []) a, ==_iff x a)

  pub has-filter : (p : A → Bool) (xs : List A) (a : A) → has (filter p xs) a ≡ (has xs a && p a)
  unfolding has
  has-filter p [] a = refl
  has-filter p (x ∷ xs) a = ground (arith, has-filter p xs a, ==_iff x a)

  pub has-add_all : (s xs : List A) (a : A) → has (add_all s xs) a ≡ (has s a || has xs a)
  unfolding add_all has
  has-add_all s [] a = ground arith
  has-add_all s (x ∷ xs) a = ground (arith, has-add_all (add s x) xs a, has-add s x a)

  pub has-of_list : (xs : List A) (a : A) → has (of_list xs) a ≡ has xs a
  unfolding of_list has
  has-of_list xs a = has-add_all [] xs a

  IsDistinct-concat :
      (s : List A) (x : A) → IsDistinct s → has s x ≡ false → IsDistinct (s ++ x ∷ [])
  unfolding has
  IsDistinct-concat [] x d h = (refl, tt)
  IsDistinct-concat (y ∷ s) x d h = (
    ground (arith, has-append s (x ∷ []) y, ==_iff y x, ==_iff x y),
    IsDistinct-concat s x d.1 (ground arith),
  )

  pub add-IsDistinct : (s : List A) (x : A) → IsDistinct s → IsDistinct (add s x)
  unfolding add
  add-IsDistinct s x d = elim (Bool-cases (has s x)) [
    | inl h ↦ rw h d
    | inr h ↦ rw h (IsDistinct-concat s x d h)
  ]

  pub add_all-IsDistinct : (s xs : List A) → IsDistinct s → IsDistinct (add_all s xs)
  unfolding add_all
  add_all-IsDistinct s [] d = d
  add_all-IsDistinct s (x ∷ xs) d = add_all-IsDistinct (add s x) xs (add-IsDistinct s x d)

  pub of_list-IsDistinct : (xs : List A) → IsDistinct (of_list xs)
  unfolding of_list
  of_list-IsDistinct xs = add_all-IsDistinct [] xs tt

  pub filter-IsDistinct : (p : A → Bool) (xs : List A) → IsDistinct xs → IsDistinct (filter p xs)
  filter-IsDistinct p [] d = tt
  filter-IsDistinct p (x ∷ xs) d = elim (Bool-cases (p x)) [
    | inl h ↦ rw h ((ground (arith, has-filter p xs x), filter-IsDistinct p xs d.1))
    | inr h ↦ rw h (filter-IsDistinct p xs d.1)
  ]

  -- A `Set` built from the values of a `Set` is that `Set`.
  add_all_of_IsDistinct :
      (s xs : List A)
      → IsDistinct xs
      → ((a : A) → has xs a ≡ true → has s a ≡ false)
      → add_all s xs ≡ s ++ xs
  unfolding add_all add has
  add_all_of_IsDistinct s [] d h = sym (append-nil s)
  add_all_of_IsDistinct s (x ∷ xs) d h = rw (h x (ground (arith, ==_self x))) (
      add_all_of_IsDistinct (s ++ x ∷ []) xs d.1
        (λ a q. ground (arith, h a, has-append s (x ∷ []) a, ==_iff x a, d.0))
      ∙ append_assoc s (x ∷ []) xs)

  pub of_list_of_IsDistinct : (xs : List A) → IsDistinct xs → of_list xs ≡ xs
  unfolding of_list has
  of_list_of_IsDistinct xs d = add_all_of_IsDistinct [] xs d (λ a q. refl)

  without : A → List A → List A
  without x = filter (λ y. not (x == y))

  length-without : (x : A) (s : List A) → has s x ≡ true → length (without x s) < length s
  unfolding without has
  length-without x [] h = cc
  length-without x (y ∷ s) h = elim (Bool-cases (x == y)) [
    | inl q ↦ rw q (omega (arith, length-filter-le (λ z. not (x == z)) s))
    | inr q ↦ rw q (omega (arith, length-without x s (ground (arith, ==_iff x y, ==_iff y x))))
  ]

  -- The members of `xs` are members of `ys`.
  abbrev pub IsSubset : List A → List A → Type ℓ
  IsSubset xs ys = (a : A) → has xs a ≡ true → has ys a ≡ true

  pub length-le_of_IsSubset :
      (xs ys : List A) → IsDistinct xs → IsSubset xs ys → length xs ≤ length ys
  unfolding has
  length-le_of_IsSubset [] ys d h = omega arith
  length-le_of_IsSubset (x ∷ xs) ys d h = omega (
    arith,
    length-without x ys (h x (ground (arith, ==_self x))),
    length-le_of_IsSubset xs (without x ys) d.1 (λ a q.
        unfold without in
        ground (arith, has-filter (λ y. not (x == y)) ys a, h a, ==_iff x a, d.0)),
  )

  -- Two sets of one size, one within the other, have the same members.
  pub IsSubset-of_length :
      (xs ys : List A) → IsDistinct xs → IsSubset xs ys → length xs ≡ length ys → IsSubset ys xs
  unfolding has
  IsSubset-of_length xs ys d h n a q = elim (Bool-cases (has xs a)) [
    | inl r ↦ r
    | inr r ↦ absurd (
        omega (
          arith,
          length-le_of_IsSubset (a ∷ xs) ys (r, d) (λ b s. ground (arith, h b, ==_iff a b)),
        ))
  ]
