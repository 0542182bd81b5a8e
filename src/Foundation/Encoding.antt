-- ===== src/Foundation/Encoding.antt =====
-- src/foundation/encoding.cpp: hexadecimal text. Bytes are numbers below 256.
pub mod Hex
use openproof.Base.{
  ℕ, ◌+◌, ◌-◌, ◌*◌, ◌/◌, ◌%◌, Bool, true, false, ◌&&◌, Option, none, some, List, [], ◌∷◌, Text, ltb,
  leb, eqb, if◌then◌else◌, length,
}
use openproof.Foundation.{Result, ok, fail, invalid_argument}

-- `kHexDigitsLower[n]`.
unfoldable pub hex_digit : ℕ → ℕ
hex_digit n = if ltb n 10 then b'0' + n else b'a' + (n - 10)

-- The entry of `kHexDecodeTable`, none where it is -1.
unfoldable pub hex_value : ℕ → Option ℕ
hex_value c =
    if leb b'0' c && leb c b'9'
    then some (c - b'0')
    else if leb b'a' c && leb c b'f'
    then some (c - b'a' + 10)
    else if leb b'A' c && leb c b'F'
    then some (c - b'A' + 10)
    else none

unfoldable pub to_hex : Text → Text
to_hex [] = []
to_hex (b ∷ bs) = hex_digit (b / 16 % 16) ∷ hex_digit (b % 16) ∷ to_hex bs

unfoldable pub emit : Option ℕ → Option ℕ → Result Text → Result Text
emit (some high) (some low) (ok out) = ok ((high * 16 + low) % 256 ∷ out)
emit (some high) (some low) (fail e) = fail e
emit none low out = fail invalid_argument
emit (some high) none out = fail invalid_argument

-- The loop over pairs of symbols, at an even length.
unfoldable pub decode_pairs : Text → Result Text
unfolding emit
decode_pairs [] = ok []
decode_pairs (h ∷ []) = ok []
decode_pairs (h ∷ l ∷ rest) = emit (hex_value h) (hex_value l) (decode_pairs rest)

unfoldable pub from_hex : Text → Result Text
from_hex text = if eqb (length text % 2) 0 then decode_pairs text else fail invalid_argument
