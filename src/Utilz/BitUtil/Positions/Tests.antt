-- ===== src/Utilz/BitUtil/Positions/Tests.antt =====
-- A mask of shards.
use push_snode.Base.{ℕ, ◌≡◌, refl, List, [], ◌∷◌, some, ltb, nat_beq, arith, ◌&&◌, nat_eq}
use push_snode.Base.JsSet.{has}
use push_snode.Utilz.BitUtil.Positions.{get_bit, bits_to_positions}
use push_snode.Utilz.BitUtil.Positions.Laws.{has-bits_to_positions}

mask : bits_to_positions 0x80000005 ≡ some (0 ∷ 2 ∷ 31 ∷ [])
unfolding bits_to_positions
mask = refl

has-bits_to_positions_example :
    (r : List ℕ) × (bits_to_positions 0x80000005 ≡ some r)
    × ((p : ℕ) → has r p ≡ (ltb p 32 && nat_beq (get_bit 0x80000005 p) 1))
has-bits_to_positions_example = has-bits_to_positions 0x80000005 (omega arith)
