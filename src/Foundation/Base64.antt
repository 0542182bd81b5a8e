-- ===== src/Foundation/Base64.antt =====
-- src/foundation/encoding.cpp: Base64url text. Bytes are numbers below 256. `|` of numbers whose
-- bits are apart is their sum, and the accumulator of the decoder is a 32-bit number that wraps.
pub mod Spelling
pub mod Canonical
use openproof.Base.{
  ℕ, ◌+◌, ◌-◌, ◌*◌, ◌/◌, ◌%◌, ◌^◌, Bool, true, false, not, ◌&&◌, Option, none, some, List, [], ◌∷◌,
  Text, ltb, leb, eqb, is_empty, if◌then◌else◌, length,
}
use openproof.Foundation.{Result, ok, fail, invalid_argument}

-- `kBase64UrlAlphabet[n]`.
unfoldable pub base64_symbol : ℕ → ℕ
base64_symbol n =
    if ltb n 26
    then b'A' + n
    else if ltb n 52
    then b'a' + (n - 26)
    else if ltb n 62
    then b'0' + (n - 52)
    else if eqb n 62
    then b'-'
    else b'_'

-- The entry of `kBase64UrlDecodeTable`, none where it is -1.
unfoldable pub base64_value : ℕ → Option ℕ
base64_value c =
    if leb b'A' c && leb c b'Z'
    then some (c - b'A')
    else if leb b'a' c && leb c b'z'
    then some (c - b'a' + 26)
    else if leb b'0' c && leb c b'9'
    then some (c - b'0' + 52)
    else if eqb c b'-'
    then some 62
    else if eqb c b'_'
    then some 63
    else none

abbrev triple : ℕ → ℕ → ℕ → ℕ
triple a b c = a * 65536 + b * 256 + c

unfoldable pub to_base64_url : Text → Text
to_base64_url [] = []
to_base64_url (a ∷ []) = base64_symbol (a / 4 % 64) ∷ base64_symbol (a * 16 % 64) ∷ []
to_base64_url (a ∷ b ∷ []) =
    base64_symbol (a / 4 % 64)
    ∷ base64_symbol ((a * 16 + b / 16) % 64)
    ∷ base64_symbol (b * 4 % 64)
    ∷ []
to_base64_url (a ∷ b ∷ c ∷ rest) =
    base64_symbol (triple a b c / 262144 % 64)
    ∷ base64_symbol (triple a b c / 4096 % 64)
    ∷ base64_symbol (triple a b c / 64 % 64)
    ∷ base64_symbol (triple a b c % 64)
    ∷ to_base64_url rest

-- The loop that removes `=` from the end.
unfoldable pub trim_padding : Text → Text
trim_padding [] = []
trim_padding (c ∷ cs) =
    let rest = trim_padding cs in if is_empty rest && eqb c b'=' then [] else c ∷ rest

pub emit_byte : ℕ → Result Text → Result Text
emit_byte b (ok out) = ok (b ∷ out)
emit_byte b (fail e) = fail e

abbrev pub shifted : ℕ → ℕ → ℕ
shifted accumulator decoded = accumulator * 64 % 4294967296 + decoded

-- The loop over the symbols, and the test of the bits that are left.
unfoldable pub decode_symbols : Text → (accumulator pending_bits : ℕ) → Result Text
unfolding emit_byte
decode_symbols [] accumulator pending_bits =
    if ltb 0 pending_bits && not (eqb (accumulator % 2 ^ pending_bits) 0)
    then fail invalid_argument
    else ok []
decode_symbols (c ∷ cs) accumulator pending_bits = elim (base64_value c) [
  | none ↦ fail invalid_argument
  | some decoded ↦
      if leb 8 (pending_bits + 6)
      then emit_byte (shifted accumulator decoded / 2 ^ (pending_bits + 6 - 8) % 256)
          (decode_symbols cs (shifted accumulator decoded) (pending_bits + 6 - 8))
      else decode_symbols cs (shifted accumulator decoded) (pending_bits + 6)
]

unfoldable pub from_base64_url : Text → Result Text
from_base64_url text =
    if eqb (length (trim_padding text) % 4) 1
    then fail invalid_argument
    else decode_symbols (trim_padding text) 0 0
