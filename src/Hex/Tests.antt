-- ===== src/Hex/Tests.antt =====
-- The theorems on hexadecimal text (detail/hex.hpp) at concrete bytes.
use deeplog.Base.{[], arith, some, ◌∷◌, ◌≡◌}
use deeplog.Hex.{hex_decode, hex_encode, hex_decode-hex_encode}

hex_decode-hex_encode_example : hex_decode (hex_encode (0xa5 ∷ 0x0f ∷ [])) ≡ some (0xa5 ∷ 0x0f ∷ [])
hex_decode-hex_encode_example = hex_decode-hex_encode (0xa5 ∷ 0x0f ∷ []) (omega arith)
