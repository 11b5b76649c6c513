-- ===== src/Utilz/BitUtil/Hex/Tests.antt =====
-- Bytes as text, and back.
use push_snode.Base.{◌≡◌, refl, [], ◌∷◌, ok, arith}
use push_snode.Utilz.BitUtil.Hex.{base16_to_bytes, bytes_to_base16, decode_hex, ascii_to_base16}
use push_snode.Utilz.StrUtil
use push_snode.Utilz.BitUtil.Hex.Laws.{base16_to_bytes-bytes_to_base16}

digits : (bytes_to_base16 (1 ∷ 171 ∷ []) ≡ "01ab") × (base16_to_bytes "01AB" ≡ ok (1 ∷ 171 ∷ []))
unfolding bytes_to_base16 base16_to_bytes decode_hex ascii_to_base16 StrUtil.length
digits = (refl, refl)

base16_to_bytes-bytes_to_base16_example :
    base16_to_bytes (bytes_to_base16 (1 ∷ 171 ∷ [])) ≡ ok (1 ∷ 171 ∷ [])
base16_to_bytes-bytes_to_base16_example =
    base16_to_bytes-bytes_to_base16 (1 ∷ 171 ∷ []) ((omega arith, (omega arith, tt)))
