-- ===== src/Foundation/Encoding/Hex.antt =====
-- src/foundation/encoding.cpp: hexadecimal text and bytes, back and forth.
use openproof.Base.{ℕ, ◌*◌, ◌/◌, ◌%◌, ◌<◌, ◌≡◌, refl, some, [], ◌∷◌, Text, arith, All, length}
use openproof.Foundation.{ok}
use openproof.Foundation.Encoding.{hex_digit, hex_value, to_hex, decode_pairs, from_hex, emit}

abbrev pub AreBytes : Text → Type 0
AreBytes = All (λ b. b < 256)

hex_value-hex_digit : (n : ℕ) → n < 16 → hex_value (hex_digit n) ≡ some n
unfolding hex_value hex_digit
hex_value-hex_digit n h = ground arith

length-to_hex : (bs : Text) → length (to_hex bs) ≡ 2 * length bs
unfolding to_hex
length-to_hex [] = refl
length-to_hex (b ∷ bs) = omega (arith, length-to_hex bs)

decode_pairs-to_hex : (bs : Text) → AreBytes bs → decode_pairs (to_hex bs) ≡ ok bs
unfolding decode_pairs to_hex emit
decode_pairs-to_hex [] h = refl
decode_pairs-to_hex (b ∷ bs) h = ground (
  arith,
  hex_value-hex_digit (b / 16 % 16) (omega arith),
  hex_value-hex_digit (b % 16) (omega arith),
  decode_pairs-to_hex bs h.1,
  h.0,
)

-- Numbers below 256 that are written in hexadecimal are read back as they were.
pub from_hex-to_hex : (bs : Text) → AreBytes bs → from_hex (to_hex bs) ≡ ok bs
unfolding from_hex
from_hex-to_hex bs h = ground (arith, length-to_hex bs, decode_pairs-to_hex bs h)
