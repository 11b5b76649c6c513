-- ===== src/Utilz/BitUtil/Positions/Laws.antt =====
-- `bitsToPositions` terminates, and lists exactly the bits that `getBit` finds.
use native.Mathlib.Nat.{div-div-eq-div-mul, pow-succ', zero-div, div-one, mod-eq_of_lt}
use mathlib.Core.Path.{ap₂}
use push_snode.Base.{
  ℕ, zero, suc, ◌+◌, ◌-◌, ◌/◌, ◌%◌, ◌^◌, ◌<◌, ◌≤◌, ◌≡◌, refl, Bool, false, ◌&&◌, ◌||◌, List, [],
  ◌∷◌, ◌++◌, Option, some, arith, nat_beq, leb, ltb, if◌then◌else◌, nat_eq, ap, ◌∙◌, sym,
  Bool-cases, inl, inr,
}
use push_snode.Base.JsSet.{has, has-append}
use push_snode.Utilz.BitUtil.Positions.{
  get_bit, insert_asc, sort_numbers_asc, positions_loop, bits_to_positions,
}

-- Bit `i` of `n`.
bit : ℕ → ℕ → Bool
bit n i = nat_beq (n / 2 ^ i % 2) 1

bit-half : (n i : ℕ) → bit (n / 2) i ≡ bit n (suc i)
unfolding bit
bit-half n i =
    ap (λ m. nat_beq (m % 2) 1)
      (div-div-eq-div-mul n 2 (2 ^ i) ∙ ap (λ m. n / m) (sym (pow-succ' 2 i)))

bit-zero : (i : ℕ) → bit 0 i ≡ false
unfolding bit
bit-zero i = rw (zero-div (2 ^ i)) refl

bit_first : (n : ℕ) → bit n 0 ≡ nat_beq (n % 2) 1
unfolding bit
bit_first n = ap (λ m. nat_beq (m % 2) 1) (div-one n)

has-insert_asc : (x : ℕ) (ys : List ℕ) (a : ℕ) → has (insert_asc x ys) a ≡ (nat_beq x a || has ys a)
unfolding insert_asc has
has-insert_asc x [] a = refl
has-insert_asc x (y ∷ ys) a = ground (arith, has-insert_asc x ys a)

has-sort_numbers_asc : (xs : List ℕ) (a : ℕ) → has (sort_numbers_asc xs) a ≡ has xs a
unfolding sort_numbers_asc has
has-sort_numbers_asc [] a = refl
has-sort_numbers_asc (x ∷ xs) a =
    ground (arith, has-insert_asc x (sort_numbers_asc xs) a, has-sort_numbers_asc xs a)

-- What the loop has found when it ends.
abbrev Finds : ℕ → ℕ → List ℕ → Option (List ℕ) → Type 0
Finds number position acc o =
    (r : List ℕ) × (o ≡ some r)
    × ((p : ℕ) → has r p ≡ (has acc p || (leb position p && bit number (p - position))))

at_suc :
    (n position p : ℕ) → position + 1 ≤ p → bit n (suc (p - (position + 1))) ≡ bit n (p - position)
at_suc n position p h = ap (bit n) (omega arith)

at_zero : (n position p : ℕ) → position ≡ p → bit n (p - position) ≡ bit n 0
at_zero n position p h = ap (bit n) (omega arith)

same_bit : (n p : ℕ) → bit n (p - 0) ≡ bit n p
same_bit n p = ap (bit n) (omega arith)

high_index : (n p : ℕ) → 32 ≤ p → bit n (32 + (p - 32)) ≡ bit n p
high_index n p h = ap (bit n) (omega arith)

found_bit :
    (n position p : ℕ) (acc : List ℕ)
    → (has (if nat_beq (n % 2) 1 then acc ++ position ∷ [] else acc) p
        || (leb (position + 1) p && bit (n / 2) (p - (position + 1))))
      ≡ (has acc p || (leb position p && bit n (p - position)))
unfolding has
found_bit n position p acc = ground (
  arith,
  has-append acc (position ∷ []) p,
  bit_first n,
  bit-half n (p - (position + 1)),
  at_suc n position p,
  at_zero n position p,
)

-- the list after one round
abbrev push : ℕ → ℕ → List ℕ → List ℕ
push n position acc = if nat_beq (n % 2) 1 then acc ++ position ∷ [] else acc

loop_step :
    (fuel n position : ℕ) (acc : List ℕ)
    → nat_beq n 0 ≡ false
    → positions_loop (suc fuel) n position acc
      ≡ positions_loop fuel (n % 2 ^ 32 / 2) (position + 1) (push n position acc)
unfolding positions_loop
loop_step fuel n position acc q = rw q

loop_stop :
    (fuel n position : ℕ) (acc : List ℕ)
    → n ≡ 0
    → Finds n position acc (positions_loop (suc fuel) n position acc)
unfolding positions_loop
loop_stop fuel n position acc e = (acc, rw e, λ p. ground (arith, e, bit-zero (p - position)))

loop-Finds :
    (fuel n position : ℕ) (acc : List ℕ)
    → n < 2 ^ fuel
    → n < 2 ^ 32
    → Finds n position acc (positions_loop (suc fuel) n position acc)
loop-Finds zero n position acc h b = loop_stop zero n position acc (omega arith)
loop-Finds (suc fuel) n position acc h b = elim (Bool-cases (nat_beq n 0)) [
  | inl q ↦ loop_stop (suc fuel) n position acc (ground arith)
  | inr q ↦
      let (r, e, found) =
        loop-Finds fuel (n / 2) (position + 1) (push n position acc)
          (omega (arith, pow-succ' 2 fuel)) (omega arith) in
      (
        r,
        loop_step (suc fuel) n position acc q
            ∙ ap (λ m. positions_loop (suc fuel) m (position + 1) (push n position acc))
                (omega arith)
            ∙ e,
        λ p. found p ∙ found_bit n position p acc,
      )
]

bit_high : (k j n : ℕ) → n < 2 ^ k → bit n (k + j) ≡ false
bit_high zero j n h = ap (λ m. bit m (zero + j)) (omega arith) ∙ bit-zero (zero + j)
bit_high (suc k) j n h =
    ap (bit n) (omega arith)
    ∙ sym (bit-half n (k + j))
    ∙ bit_high k j (n / 2) (omega (arith, pow-succ' 2 k))

bit_low : (n p : ℕ) → n < 2 ^ 32 → p < 32 → bit n p ≡ nat_beq (get_bit n p) 1
unfolding bit get_bit
bit_low n p h lt = sym (
    ap₂ (λ a b. nat_beq (a / 2 ^ b % 2) 1) (mod-eq_of_lt {n = n} {m = 2 ^ 32} h)
      (mod-eq_of_lt {n = p} {m = 32} lt))

bit_in_mask :
    (n p : ℕ)
    → n < 2 ^ 32
    → (has {A = ℕ} [] p || (leb 0 p && bit n (p - 0))) ≡ (ltb p 32 && nat_beq (get_bit n p) 1)
unfolding has
bit_in_mask n p h = elim (Bool-cases (ltb p 32)) [
  | inl lt ↦ ground (arith, bit_low n p h, same_bit n p)
  | inr ge ↦ ground (arith, bit_high 32 (p - 32) n h, high_index n p, same_bit n p)
]

-- For a number of 32 bits the loop ends, and a position is in the list exactly when the bit there
-- is set and the position is below 32.
pub has-bits_to_positions :
    (number : ℕ)
    → number < 2 ^ 32
    → (r : List ℕ) × (bits_to_positions number ≡ some r)
      × ((p : ℕ) → has r p ≡ (ltb p 32 && nat_beq (get_bit number p) 1))
unfolding bits_to_positions
has-bits_to_positions number h =
    let (r, e, found) = loop-Finds 32 number 0 [] h h in
    (sort_numbers_asc r, rw e, λ p. has-sort_numbers_asc r p ∙ found p ∙ bit_in_mask number p h)
