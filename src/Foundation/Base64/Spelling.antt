-- ===== src/Foundation/Base64/Spelling.antt =====
-- src/foundation/encoding.cpp: bytes in Base64url are read back.
use openproof.Base.{ℕ, ◌+◌, ◌*◌, ◌/◌, ◌%◌, ◌<◌, ◌≡◌, refl, some, [], ◌∷◌, Text, arith, length}
use openproof.Foundation.{ok}
use openproof.Foundation.Encoding.Hex.{AreBytes}
use openproof.Foundation.Base64.{
  base64_symbol, base64_value, to_base64_url, trim_padding, decode_symbols, from_base64_url,
  shifted, emit_byte,
}

pub base64_value-base64_symbol : (n : ℕ) → n < 64 → base64_value (base64_symbol n) ≡ some n
unfolding base64_value base64_symbol
base64_value-base64_symbol n h = ground arith

-- The length of a text in Base64url is four thirds of that of the bytes, rounded up.
pub length-to_base64_url : (bs : Text) → length (to_base64_url bs) ≡ (4 * length bs + 2) / 3
unfolding to_base64_url
length-to_base64_url [] = refl
length-to_base64_url (a ∷ []) = refl
length-to_base64_url (a ∷ b ∷ []) = refl
length-to_base64_url (a ∷ b ∷ c ∷ rest) = omega (arith, length-to_base64_url rest)

trim_padding-symbol :
    (n : ℕ) (cs : Text) → trim_padding (base64_symbol n ∷ cs) ≡ base64_symbol n ∷ trim_padding cs
unfolding trim_padding base64_symbol
trim_padding-symbol n cs = ground arith

trim_padding-nil : trim_padding [] ≡ []
unfolding trim_padding
trim_padding-nil = refl

-- The text ends in no padding.
trim_padding-to_base64_url : (bs : Text) → trim_padding (to_base64_url bs) ≡ to_base64_url bs
unfolding to_base64_url
trim_padding-to_base64_url [] = trim_padding-nil
trim_padding-to_base64_url (a ∷ []) = simp (trim_padding-symbol, trim_padding-nil)
trim_padding-to_base64_url (a ∷ b ∷ []) = simp (trim_padding-symbol, trim_padding-nil)
trim_padding-to_base64_url (a ∷ b ∷ c ∷ rest) =
    simp (trim_padding-symbol, trim_padding-to_base64_url rest)

-- The steps of the decoder over the symbol of a number, at each number of bits that wait.
pub decode_at_zero :
    (n : ℕ) (cs : Text) (accumulator : ℕ)
    → n < 64
    → decode_symbols (base64_symbol n ∷ cs) accumulator 0
      ≡ decode_symbols cs (shifted accumulator n) 6
unfolding decode_symbols
decode_at_zero n cs accumulator h = ground (arith, base64_value-base64_symbol n h)

pub decode_at_six :
    (n : ℕ) (cs : Text) (accumulator : ℕ)
    → n < 64
    → decode_symbols (base64_symbol n ∷ cs) accumulator 6
      ≡ emit_byte (shifted accumulator n / 16 % 256) (decode_symbols cs (shifted accumulator n) 4)
unfolding decode_symbols
decode_at_six n cs accumulator h = ground (arith, base64_value-base64_symbol n h)

pub decode_at_four :
    (n : ℕ) (cs : Text) (accumulator : ℕ)
    → n < 64
    → decode_symbols (base64_symbol n ∷ cs) accumulator 4
      ≡ emit_byte (shifted accumulator n / 4 % 256) (decode_symbols cs (shifted accumulator n) 2)
unfolding decode_symbols
decode_at_four n cs accumulator h = ground (arith, base64_value-base64_symbol n h)

pub decode_at_two :
    (n : ℕ) (cs : Text) (accumulator : ℕ)
    → n < 64
    → decode_symbols (base64_symbol n ∷ cs) accumulator 2
      ≡ emit_byte (shifted accumulator n / 1 % 256) (decode_symbols cs (shifted accumulator n) 0)
unfolding decode_symbols
decode_at_two n cs accumulator h = ground (arith, base64_value-base64_symbol n h)

decode_end :
    (accumulator : ℕ)
    → (decode_symbols [] accumulator 0 ≡ ok [])
      × (accumulator % 16 ≡ 0 → decode_symbols [] accumulator 4 ≡ ok [])
      × (accumulator % 4 ≡ 0 → decode_symbols [] accumulator 2 ≡ ok [])
unfolding decode_symbols
decode_end accumulator = ground arith

-- The last two, three and four symbols, with any bits before them.
decode_one :
    (a accumulator : ℕ)
    → a < 256
    → decode_symbols (base64_symbol (a / 4 % 64) ∷ base64_symbol (a * 16 % 64) ∷ []) accumulator 0
      ≡ ok (a ∷ [])
unfolding emit_byte
decode_one a accumulator h =
    let x : ℕ = shifted accumulator (a / 4 % 64) in
    let y : ℕ = shifted x (a * 16 % 64) in
    let first : y / 16 % 256 ≡ a = omega arith in
    rw
      (
        decode_at_zero (a / 4 % 64) (base64_symbol (a * 16 % 64) ∷ []) accumulator (omega arith),
        decode_at_six (a * 16 % 64) [] x (omega arith),
        (decode_end y).1 (omega arith),
        first,
      )
      refl

decode_two :
    (a b accumulator : ℕ)
    → a < 256
    → b < 256
    → decode_symbols
        (base64_symbol (a / 4 % 64)
          ∷ base64_symbol ((a * 16 + b / 16) % 64)
          ∷ base64_symbol (b * 4 % 64)
          ∷ [])
        accumulator
        0
      ≡ ok (a ∷ b ∷ [])
unfolding emit_byte
decode_two a b accumulator h g =
    let x : ℕ = shifted accumulator (a / 4 % 64) in
    let y : ℕ = shifted x ((a * 16 + b / 16) % 64) in
    let z : ℕ = shifted y (b * 4 % 64) in
    let first : y / 16 % 256 ≡ a = omega arith in
    let second : z / 4 % 256 ≡ b = omega arith in
    rw
      (
        decode_at_zero (a / 4 % 64)
            (base64_symbol ((a * 16 + b / 16) % 64) ∷ base64_symbol (b * 4 % 64) ∷ []) accumulator
            (omega arith),
        decode_at_six ((a * 16 + b / 16) % 64) (base64_symbol (b * 4 % 64) ∷ []) x (omega arith),
        decode_at_four (b * 4 % 64) [] y (omega arith),
        (decode_end z).2 (omega arith),
        first,
        second,
      )
      refl

decode_three :
    (a b c accumulator : ℕ) (cs : Text)
    → a < 256
    → b < 256
    → c < 256
    → (d : ℕ) × (decode_symbols
          (base64_symbol ((a * 65536 + b * 256 + c) / 262144 % 64)
            ∷ base64_symbol ((a * 65536 + b * 256 + c) / 4096 % 64)
            ∷ base64_symbol ((a * 65536 + b * 256 + c) / 64 % 64)
            ∷ base64_symbol ((a * 65536 + b * 256 + c) % 64)
            ∷ cs)
          accumulator
          0
        ≡ emit_byte a (emit_byte b (emit_byte c (decode_symbols cs d 0))))
decode_three a b c accumulator cs h g k =
    let t : ℕ = a * 65536 + b * 256 + c in
    let x : ℕ = shifted accumulator (t / 262144 % 64) in
    let y : ℕ = shifted x (t / 4096 % 64) in
    let z : ℕ = shifted y (t / 64 % 64) in
    let w : ℕ = shifted z (t % 64) in
    let first : y / 16 % 256 ≡ a = omega arith in
    let second : z / 4 % 256 ≡ b = omega arith in
    let third : w / 1 % 256 ≡ c = omega arith in
    (
      w,
      rw
          (
            decode_at_zero (t / 262144 % 64)
                (base64_symbol (t / 4096 % 64)
                  ∷ base64_symbol (t / 64 % 64)
                  ∷ base64_symbol (t % 64)
                  ∷ cs)
                accumulator (omega arith),
            decode_at_six (t / 4096 % 64)
                (base64_symbol (t / 64 % 64) ∷ base64_symbol (t % 64) ∷ cs) x (omega arith),
            decode_at_four (t / 64 % 64) (base64_symbol (t % 64) ∷ cs) y (omega arith),
            decode_at_two (t % 64) cs z (omega arith),
            first,
            second,
            third,
          )
          refl,
    )

decode_symbols-to_base64_url :
    (bs : Text) (accumulator : ℕ)
    → AreBytes bs
    → decode_symbols (to_base64_url bs) accumulator 0 ≡ ok bs
unfolding to_base64_url emit_byte
decode_symbols-to_base64_url [] accumulator h = (decode_end accumulator).0
decode_symbols-to_base64_url (a ∷ []) accumulator h = decode_one a accumulator h.0
decode_symbols-to_base64_url (a ∷ b ∷ []) accumulator h = decode_two a b accumulator h.0 h.1.0
decode_symbols-to_base64_url (a ∷ b ∷ c ∷ rest) accumulator h =
    let (d, e) = decode_three a b c accumulator (to_base64_url rest) h.0 h.1.0 h.1.1.0 in
    rw (e, decode_symbols-to_base64_url rest d h.1.1.1) refl

-- Bytes that are written in Base64url are read back as they were.
pub from_base64_url-to_base64_url :
    (bs : Text) → AreBytes bs → from_base64_url (to_base64_url bs) ≡ ok bs
unfolding from_base64_url
from_base64_url-to_base64_url bs h = ground (
  arith,
  trim_padding-to_base64_url bs,
  length-to_base64_url bs,
  decode_symbols-to_base64_url bs 0 h,
)
