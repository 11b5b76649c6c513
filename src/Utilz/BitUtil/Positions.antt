-- ===== src/Utilz/BitUtil/Positions.antt =====
-- Shard masks: the bits of a number, and their positions. A bitwise operator of JavaScript first
-- takes a number modulo 2 ^ 32.
pub mod Laws
mod Tests
use push_snode.Base.{
  ℕ, zero, suc, ◌+◌, ◌/◌, ◌%◌, ◌^◌, Bool, List, [], ◌∷◌, ◌++◌, Option, none, some, nat_beq, leb,
  not, if◌then◌else◌,
}

-- `(number & (1 << bitOffset)) === 0 ? 0 : 1`; a shift counts modulo 32.
unfoldable pub get_bit : ℕ → ℕ → ℕ
get_bit number bit_offset = (number % 2 ^ 32) / 2 ^ (bit_offset % 32) % 2

-- `array.sort((a, b) => a - b)`: insertion into a sorted list
insert_asc : ℕ → List ℕ → List ℕ
insert_asc x [] = x ∷ []
insert_asc x (y ∷ ys) = if leb x y then x ∷ y ∷ ys else y ∷ insert_asc x ys

unfoldable pub sort_numbers_asc : List ℕ → List ℕ
unfolding insert_asc
sort_numbers_asc [] = []
sort_numbers_asc (x ∷ xs) = insert_asc x (sort_numbers_asc xs)

-- The `while` loop, `none` when the fuel runs out.
positions_loop : ℕ → ℕ → ℕ → List ℕ → Option (List ℕ)
positions_loop zero number position result = none
positions_loop (suc fuel) number position result =
    let rest =
      positions_loop fuel ((number % 2 ^ 32) / 2) (position + 1)
        (if nat_beq (number % 2) 1 then result ++ position ∷ [] else result) in
    if nat_beq number 0 then some result else rest

-- After one round the number is below 2 ^ 31, so 33 rounds are enough.
abbrev pub rounds : ℕ
rounds = 33

abbrev sorted : Option (List ℕ) → Option (List ℕ)
sorted none = none
sorted (some result) = some (sort_numbers_asc result)

unfoldable pub bits_to_positions : ℕ → Option (List ℕ)
unfolding positions_loop sort_numbers_asc
bits_to_positions number = sorted (positions_loop rounds number 0 [])
