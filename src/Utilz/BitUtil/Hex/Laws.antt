-- ===== src/Utilz/BitUtil/Hex/Laws.antt =====
-- Printing bytes as hexadecimal text and reading them back.
use Prim.Native.Char.{Char, code}
use Prim.Native.String.{◌∷◌ as cons}
use mathlib.Core.Path.{ap₂}
use push_snode.Base.{
  ◌+◌, String, ◌∙◌, nat_beq, Option, none, Bool, true, false, all_below, all_below_sound,
  nat_beq_iff, ℕ, ◌*◌, ◌/◌, ◌%◌, ◌<◌, ◌≡◌, refl, List, [], ◌∷◌, some, ok, arith, length, All,
}
use push_snode.Utilz.StrUtil
use push_snode.Utilz.BitUtil.Hex.{
  ascii_to_base16, decode_hex, base16_to_bytes, hex_digit, bytes_to_base16,
}

reads : Option ℕ → ℕ → Bool
reads none d = false
reads (some v) d = nat_beq v d

reads_sound : (o : Option ℕ) (d : ℕ) → reads o d ≡ true → o ≡ some d
unfolding reads
reads_sound none d h = cc
reads_sound (some v) d h = ground arith

units_table : all_below 16 (λ d. nat_beq (StrUtil.units (hex_digit d)) 1) ≡ true
unfolding hex_digit
units_table = refl

digit_table : all_below 16 (λ d. reads (ascii_to_base16 (code (hex_digit d))) d) ≡ true
unfolding hex_digit reads ascii_to_base16
digit_table = refl

hex_digit-units : (d : ℕ) → d < 16 → StrUtil.units (hex_digit d) ≡ 1
hex_digit-units d h =
    (nat_beq_iff _ 1).0
      (all_below_sound 16 (λ n. nat_beq (StrUtil.units (hex_digit n)) 1) d units_table h)

ascii_to_base16-hex_digit : (d : ℕ) → d < 16 → ascii_to_base16 (code (hex_digit d)) ≡ some d
ascii_to_base16-hex_digit d h =
    reads_sound _ d
      (all_below_sound 16 (λ n. reads (ascii_to_base16 (code (hex_digit n))) n) d digit_table h)

length-bytes_to_base16 :
    (bs : List ℕ) → All (λ b. b < 256) bs → StrUtil.length (bytes_to_base16 bs) ≡ 2 * length bs
unfolding bytes_to_base16 StrUtil.length
length-bytes_to_base16 [] h = refl
length-bytes_to_base16 (b ∷ bs) (p, h) = omega (
  arith,
  hex_digit-units (b / 16) (omega arith),
  hex_digit-units (b % 16) (omega arith),
  length-bytes_to_base16 bs h,
)

decode_hex-cons :
    (c d : Char) (s : String) (hi lo : ℕ)
    → ascii_to_base16 (code c) ≡ some hi
    → ascii_to_base16 (code d) ≡ some lo
    → decode_hex (cons c (cons d s)) ≡ (hi * 16 + lo) ∷ decode_hex s
unfolding decode_hex
decode_hex-cons c d s hi lo p q = ground arith

decode_hex-bytes_to_base16 :
    (bs : List ℕ) → All (λ b. b < 256) bs → decode_hex (bytes_to_base16 bs) ≡ bs
unfolding bytes_to_base16
decode_hex-bytes_to_base16 [] h = unfold decode_hex in refl
decode_hex-bytes_to_base16 (b ∷ bs) (p, h) =
    decode_hex-cons (hex_digit (b / 16)) (hex_digit (b % 16)) (bytes_to_base16 bs) (b / 16) (b % 16)
      (ascii_to_base16-hex_digit (b / 16) (omega arith))
      (ascii_to_base16-hex_digit (b % 16) (omega arith))
    ∙ ap₂ ◌∷◌ (omega arith) (decode_hex-bytes_to_base16 bs h)

-- `base16ToBytes` reads back what `bytesToBase16` wrote.
pub base16_to_bytes-bytes_to_base16 :
    (bs : List ℕ) → All (λ b. b < 256) bs → base16_to_bytes (bytes_to_base16 bs) ≡ ok bs
unfolding base16_to_bytes
base16_to_bytes-bytes_to_base16 bs h =
    ground (arith, length-bytes_to_base16 bs h, decode_hex-bytes_to_base16 bs h)
