-- ===== src/Utilz/BitUtil/Hex.antt =====
-- Bytes and hexadecimal text, with the `hex` encoding of Node's `Buffer`.
pub mod Laws
mod Tests
use Prim.Native.Char.{Char, code}
use Prim.Native.String
use Prim.Native.String.{[] as nil, ◌∷◌ as cons}
use push_snode.Base.{
  ℕ, ◌+◌, ◌-◌, ◌*◌, ◌/◌, ◌%◌, String, Bool, true, false, ◌&&◌, ◌||◌, List, [], ◌∷◌, Option, none,
  some, Result, ok, throw, ◌>>=◌, ◌>>◌, guard, bad_hex, leb, nat_beq, if◌then◌else◌, length,
}
use push_snode.Utilz.StrUtil

-- `asciiToBase16`
unfoldable pub ascii_to_base16 : ℕ → Option ℕ
ascii_to_base16 c =
    if leb b'0' c && leb c b'9'
    then some (c - b'0')
    else if leb b'A' c && leb c b'F'
    then some (c - (b'A' - 10))
    else if leb b'a' c && leb c b'f'
    then some (c - (b'a' - 10))
    else none

-- `Buffer.from(s, 'hex')` reads pairs of digits and stops at the first pair that is none.
unfoldable pub decode_hex : String → List ℕ
decode_hex nil = []
decode_hex (cons c nil) = []
decode_hex (cons c (cons d s)) = elim (ascii_to_base16 (code c)) [
  | none ↦ []
  | some hi ↦ elim (ascii_to_base16 (code d)) [
    | none ↦ []
    | some lo ↦ (hi * 16 + lo) ∷ decode_hex s
  ]
]

-- `if (s.length % 2 == 1) s = '0' + s`
unfoldable pub pad_even : String → String
pad_even s = if nat_beq (StrUtil.length s % 2) 1 then cons "0" s else s

-- A text of odd length gets a leading zero; a character that is no digit makes the result short.
unfoldable pub base16_to_bytes : String → Result (List ℕ)
unfolding pad_even
base16_to_bytes base16_string =
    let s = pad_even base16_string in
    let result = decode_hex s in
    do
      guard (nat_beq (StrUtil.length s) 0 || nat_beq (length result) (StrUtil.length s / 2)) bad_hex
      ok result

hex_digit : ℕ → Char
hex_digit d =
    if nat_beq d 0
    then "0"
    else if nat_beq d 1
    then "1"
    else if nat_beq d 2
    then "2"
    else if nat_beq d 3
    then "3"
    else if nat_beq d 4
    then "4"
    else if nat_beq d 5
    then "5"
    else if nat_beq d 6
    then "6"
    else if nat_beq d 7
    then "7"
    else if nat_beq d 8
    then "8"
    else if nat_beq d 9
    then "9"
    else if nat_beq d 10
    then "a"
    else if nat_beq d 11
    then "b"
    else if nat_beq d 12
    then "c"
    else if nat_beq d 13
    then "d"
    else if nat_beq d 14
    then "e"
    else "f"

-- `Buffer.from(arr).toString('hex')`: two digits in lower case for each byte
unfoldable pub bytes_to_base16 : List ℕ → String
unfolding hex_digit
bytes_to_base16 [] = nil
bytes_to_base16 (b ∷ bs) =
    cons (hex_digit (b / 16)) (cons (hex_digit (b % 16)) (bytes_to_base16 bs))

-- `hex0xRemove`; `to_lower_case` is that of JavaScript.
unfoldable pub hex0x_remove : (String → String) → String → String
unfolding pad_even StrUtil.starts_with StrUtil.substring
hex0x_remove to_lower_case hex_string =
    let s =
      if leb 2 (StrUtil.length hex_string)
        && (StrUtil.starts_with hex_string "0x" || StrUtil.starts_with hex_string "0X")
      then StrUtil.substring 2 hex_string
      else hex_string in
    to_lower_case (pad_even s)

unfoldable pub hex0x_append : String → String
hex0x_append hex_string =
    if leb 2 (StrUtil.length hex_string)
      && (StrUtil.starts_with hex_string "0x" || StrUtil.starts_with hex_string "0X")
    then hex_string
    else cons "0" (cons "x" hex_string)

-- `hex0xToBytes`
unfoldable pub hex0x_to_bytes : (String → String) → String → Result (List ℕ)
hex0x_to_bytes to_lower_case hex_string =
    let s = hex0x_remove to_lower_case hex_string in
    do
      result ← base16_to_bytes s
      guard (nat_beq (StrUtil.length s) 0 || nat_beq (length result * 2) (StrUtil.length s)) bad_hex
      ok result
