-- ===== src/Utilz/StrUtil/Laws.antt =====
-- Sizes, prefixes and splitting of strings.
use Prim.Native.Char.{Char, code}
use Prim.Native.String
use Prim.Native.String.{[], ◌∷◌}
use text.Mathlib.TextLemmas.{nil-append, cons-append}
use text.Mathlib.TextEquality.{Char-path}
use push_snode.Base.{
  ◌&&◌, Bool, ap, ◌∙◌, All, Bool-cases, inl, inr, ℕ, String, ◌≡◌, ◌≢◌, ◌↔◌, refl, ◌≤◌, ◌<◌, true,
  false, arith, List, nat_beq,
}
use push_snode.Utilz.StrUtil.{is_space, is_blank, on_head, length, is_empty, has_size, split}

-- No code point of `s` is `sep`.
abbrev pub IsFree : ℕ → String → Type 0
IsFree sep [] = Unit
IsFree sep (c ∷ s) = (code c ≢ sep) × IsFree sep s

pub split_of_IsFree : (sep : ℕ) (s : String) → IsFree sep s → split sep s ≡ List.◌∷◌ s List.[]
unfolding split
split_of_IsFree sep [] h = refl
split_of_IsFree sep (c ∷ s) (p, h) = ground (arith, split_of_IsFree sep s h)

-- The first part ends at the first separator.
pub split-append :
    (sep : ℕ) (s : String) (c : Char) (t : String)
    → IsFree sep s
    → code c ≡ sep
    → split sep (String.◌++◌ s (c ∷ t)) ≡ List.◌∷◌ s (split sep t)
unfolding split
split-append sep [] c t h q = rw nil-append (ground arith)
split-append sep (d ∷ s) c t (p, h) q = rw cons-append (ground (arith, split-append sep s c t h q))

pub has_size_iff :
    (s : String) (lo hi : ℕ) → (has_size s lo hi ≡ true) ↔ ((lo ≤ length s) × (length s ≤ hi))
unfolding has_size
has_size_iff s lo hi = ground arith

pub is_empty_of_size : (s : String) → 0 < length s → is_empty s ≡ false
unfolding length is_empty
is_empty_of_size [] h = absurd (omega arith)
is_empty_of_size (c ∷ s) h = refl

-- `parts.join(sep)`
unfoldable pub join : Char → List String → String
join sep (List.[]) = []
join sep (List.◌∷◌ p (List.[])) = p
join sep (List.◌∷◌ p (List.◌∷◌ q parts)) = String.◌++◌ p (sep ∷ join sep (List.◌∷◌ q parts))

join-on_head :
    (sep c : Char) (parts : List String)
    → parts ≢ List.[]
    → join sep (on_head c parts) ≡ c ∷ join sep parts
unfolding join
join-on_head sep c (List.[]) h = absurd (h refl)
join-on_head sep c (List.◌∷◌ p (List.[])) h = refl
join-on_head sep c (List.◌∷◌ p (List.◌∷◌ q parts)) h = cons-append c p _

split-ne-nil : (sep : ℕ) (s : String) → split sep s ≢ List.[]
unfolding split
split-ne-nil sep [] e = cc
split-ne-nil sep (c ∷ s) e = ground (arith, split-ne-nil sep s)

join_nil :
    (sep : Char) (parts : List String)
    → parts ≢ List.[]
    → join sep (List.◌∷◌ [] parts) ≡ sep ∷ join sep parts
unfolding join
join_nil sep (List.[]) h = absurd (h refl)
join_nil sep (List.◌∷◌ p parts) h = nil-append _

-- `split` loses nothing.
pub join-split : (sep : Char) (s : String) → join sep (split (code sep) s) ≡ s
unfolding split
join-split sep [] = unfold join in refl
join-split sep (c ∷ s) = elim (Bool-cases (nat_beq (code c) (code sep))) [
  | inl q ↦ rw q (
      join_nil sep (split (code sep) s) (split-ne-nil (code sep) s)
      ∙ ap (◌∷◌ sep) (join-split sep s)
      ∙ ap (λ d. d ∷ s) (Char-path sep c (ground arith)))
  | inr q ↦ rw q (
      join-on_head sep c (split (code sep) s) (split-ne-nil (code sep) s)
      ∙ ap (◌∷◌ c) (join-split sep s))
]

on_head-All :
    (sep : ℕ) (c : Char) (parts : List String)
    → code c ≢ sep
    → All (IsFree sep) parts
    → All (IsFree sep) (on_head c parts)
on_head-All sep c (List.[]) p h = ((p, tt), tt)
on_head-All sep c (List.◌∷◌ s parts) p (q, h) = ((p, q), h)

-- No part holds the separator.
pub split-IsFree : (sep : ℕ) (s : String) → All (IsFree sep) (split sep s)
unfolding split
split-IsFree sep [] = (tt, tt)
split-IsFree sep (c ∷ s) = elim (Bool-cases (nat_beq (code c) sep)) [
  | inl q ↦ rw q (tt, split-IsFree sep s)
  | inr q ↦ rw q (on_head-All sep c (split sep s) (ground arith) (split-IsFree sep s))
]

and_true-left : (a b : Bool) → (a && b) ≡ true → a ≡ true
and_true-left a b h = ground arith

and_true-right : (a b : Bool) → (a && b) ≡ true → b ≡ true
and_true-right a b h = ground arith

-- A blank string is free of a separator that is no space.
pub is_blank-IsFree :
    (sep : ℕ) (s : String) → is_space sep ≡ false → is_blank s ≡ true → IsFree sep s
unfolding is_blank
is_blank-IsFree sep [] q h = tt
is_blank-IsFree sep (c ∷ s) q h = (
  (λ e. cc (ap is_space e, and_true-left (is_space (code c)) (is_blank s) h)),
  is_blank-IsFree sep s q (and_true-right (is_space (code c)) (is_blank s) h),
)
