-- ===== src/Utilz/StrUtil.antt =====
-- utilz/strUtil.ts, with the methods of JavaScript's `String` that the program calls. A native
-- string holds code points; JavaScript counts UTF-16 code units, two for a code point past 0xFFFF.
pub mod Laws
use Prim.Native.Char.{Char, code}
use Prim.Native.String.{[], ◌∷◌}
use push_snode.Base.{
  ℕ, zero, suc, ◌+◌, String, Bool, true, false, ◌&&◌, ◌||◌, List, Option, none, some, ltb, leb,
  nat_beq, not, if◌then◌else◌, ◌==◌,
}
use push_snode.Base

-- The code units of a code point.
abbrev pub units : Char → ℕ
units c = if ltb (code c) 0x10000 then 1 else 2

-- `s.length`
unfoldable pub length : String → ℕ
length [] = 0
length (c ∷ s) = units c + length s

-- `StrUtil.isEmpty`, of a string that is not null
unfoldable pub is_empty : String → Bool
is_empty [] = true
is_empty (c ∷ s) = false

-- `StrUtil.isEmpty`, where null is `none`
unfoldable pub is_empty_or_null : Option String → Bool
is_empty_or_null none = true
is_empty_or_null (some s) = is_empty s

-- `StrUtil.hasSize` with both limits given
unfoldable pub has_size : String → ℕ → ℕ → Bool
has_size s min_size max_size =
    if ltb (length s) min_size then false else if ltb max_size (length s) then false else true

-- `s.startsWith(prefix)`
unfoldable pub starts_with : String → String → Bool
starts_with s [] = true
starts_with [] (p ∷ ps) = false
starts_with (c ∷ s) (p ∷ ps) = nat_beq (code c) (code p) && starts_with s ps

-- `s.substring(n)`, where the first `n` code points are of one code unit each
unfoldable pub substring : ℕ → String → String
substring zero s = s
substring (suc n) [] = []
substring (suc n) (c ∷ s) = substring n s

-- What `trim` removes: the white space and line ends of ECMAScript.
unfoldable pub is_space : ℕ → Bool
is_space c =
    (leb 9 c && leb c 13)
    || nat_beq c 0x20
    || nat_beq c 0xa0
    || nat_beq c 0x1680
    || (leb 0x2000 c && leb c 0x200a)
    || nat_beq c 0x2028
    || nat_beq c 0x2029
    || nat_beq c 0x202f
    || nat_beq c 0x205f
    || nat_beq c 0x3000
    || nat_beq c 0xfeff

-- `s.trim() === ''`
unfoldable pub is_blank : String → Bool
is_blank [] = true
is_blank (c ∷ s) = is_space (code c) && is_blank s

abbrev on_head : Char → List String → List String
on_head c (List.[]) = List.◌∷◌ (c ∷ []) List.[]
on_head c (List.◌∷◌ part parts) = List.◌∷◌ (c ∷ part) parts

-- `s.split(sep)`, where `sep` is one character
unfoldable pub split : ℕ → String → List String
split sep [] = List.◌∷◌ [] List.[]
split sep (c ∷ s) =
    if nat_beq (code c) sep then List.◌∷◌ [] (split sep s) else on_head c (split sep s)
