-- ===== src/Foundation/Base64/Canonical.antt =====
-- src/foundation/encoding.cpp: a sequence of bytes has one spelling in Base64url.
use openproof.Base.{
  ℕ, ◌+◌, ◌*◌, ◌/◌, ◌%◌, ◌<◌, ◌≡◌, inl, inr, refl, some, List, [], ◌∷◌, Text, arith, All, length,
  leb, Option-cases, Bool-cases, false, eqb, ◌-◌, ◌^◌, map,
}
use openproof.Foundation.{Result, ok, fail}
use openproof.Foundation.Base64.Spelling.{
  decode_at_zero, decode_at_six, decode_at_four, decode_at_two,
}
use openproof.Foundation.Base64.{
  base64_symbol, base64_value, to_base64_url, trim_padding, decode_symbols, from_base64_url,
  shifted, emit_byte,
}

base64_symbol-base64_value : (c n : ℕ) → base64_value c ≡ some n → (base64_symbol n ≡ c) × (n < 64)
unfolding base64_value base64_symbol
base64_symbol-base64_value c n h = ground arith

AreValues : List ℕ → Type 0
AreValues = All (λ n. n < 64)

emit_byte-ok :
    (b : ℕ) (r : Result Text) {bs : Text}
    → emit_byte b r ≡ ok bs
    → (rest : Text) × (r ≡ ok rest) × (bs ≡ b ∷ rest)
unfolding emit_byte
emit_byte-ok b (ok rest) h = (rest, refl, ground arith)
emit_byte-ok b (fail e) h = absurd (ground arith)

-- A text that is decoded holds symbols of the alphabet only.
decoded_symbols :
    (cs : Text) (accumulator pending : ℕ) {bs : Text}
    → decode_symbols cs accumulator pending ≡ ok bs
    → (ns : List ℕ) × AreValues ns × (map base64_symbol ns ≡ cs)
unfolding decode_symbols AreValues
decoded_symbols [] accumulator pending h = ([], tt, refl)
decoded_symbols (c ∷ cs) accumulator pending {bs} h = elim (Option-cases (base64_value c)) [
  | inl e ↦ absurd (ground arith)
  | inr (n, e) ↦
      let (same, small) = base64_symbol-base64_value c n e in
      elim (Bool-cases (leb 8 (pending + 6))) [
        | inl p ↦
            let (rest, q, eq) =
              emit_byte-ok (shifted accumulator n / 2 ^ (pending + 6 - 8) % 256)
                (decode_symbols cs (shifted accumulator n) (pending + 6 - 8)) {bs = bs}
                (ground arith) in
            let (ns, v, t) = decoded_symbols cs (shifted accumulator n) (pending + 6 - 8) q in
            (n ∷ ns, (small, v), ground arith)
        | inr p ↦
            let (ns, v, t) =
              decoded_symbols cs (shifted accumulator n) (pending + 6) {bs = bs} (ground arith) in
            (n ∷ ns, (small, v), ground arith)
      ]
]

decode_end :
    (accumulator : ℕ) {bs : Text}
    → (decode_symbols [] accumulator 0 ≡ ok bs → bs ≡ [])
      × (decode_symbols [] accumulator 4 ≡ ok bs → (bs ≡ []) × (accumulator % 16 ≡ 0))
      × (decode_symbols [] accumulator 2 ≡ ok bs → (bs ≡ []) × (accumulator % 4 ≡ 0))
unfolding decode_symbols
decode_end accumulator = ground arith

-- The bytes of two, three and four symbols are spelled by the same symbols.
encode_two :
    (m n accumulator : ℕ) (bs : Text)
    → m < 64
    → n < 64
    → decode_symbols (base64_symbol m ∷ base64_symbol n ∷ []) accumulator 0 ≡ ok bs
    → to_base64_url bs ≡ base64_symbol m ∷ base64_symbol n ∷ []
unfolding to_base64_url
encode_two m n accumulator bs p q h =
    let x : ℕ = shifted accumulator m in
    let y : ℕ = shifted x n in
    let (rest, e, s) =
      emit_byte-ok (y / 16 % 256) (decode_symbols [] y 4) {bs = bs}
        (cc (h, decode_at_zero m (base64_symbol n ∷ []) accumulator p, decode_at_six n [] x q)) in
    let (nil, zeros) = (decode_end y).1 e in
    let first : y / 16 % 256 / 4 % 64 ≡ m = omega arith in
    let second : y / 16 % 256 * 16 % 64 ≡ n = omega arith in rw (s, nil, first, second) refl

encode_three :
    (m n o accumulator : ℕ) (bs : Text)
    → m < 64
    → n < 64
    → o < 64
    → decode_symbols (base64_symbol m ∷ base64_symbol n ∷ base64_symbol o ∷ []) accumulator 0
      ≡ ok bs
    → to_base64_url bs ≡ base64_symbol m ∷ base64_symbol n ∷ base64_symbol o ∷ []
unfolding to_base64_url
encode_three m n o accumulator bs p q r h =
    let x : ℕ = shifted accumulator m in
    let y : ℕ = shifted x n in
    let z : ℕ = shifted y o in
    let (more, e, s) =
      emit_byte-ok (y / 16 % 256) (decode_symbols (base64_symbol o ∷ []) y 4) {bs = bs} (
        cc (
          h,
          decode_at_zero m (base64_symbol n ∷ base64_symbol o ∷ []) accumulator p,
          decode_at_six n (base64_symbol o ∷ []) x q,
        )) in
    let (rest, e', s') =
      emit_byte-ok (z / 4 % 256) (decode_symbols [] z 2) {bs = more}
        (cc (e, decode_at_four o [] y r)) in
    let (nil, zeros) = (decode_end z).2 e' in
    let first : y / 16 % 256 / 4 % 64 ≡ m = omega arith in
    let second : (y / 16 % 256 * 16 + z / 4 % 256 / 16) % 64 ≡ n = omega arith in
    let third : z / 4 % 256 * 4 % 64 ≡ o = omega arith in rw (s, s', nil, first, second, third) refl

encode_block :
    (a b c m n o l : ℕ) (bs rest : Text)
    → bs ≡ a ∷ b ∷ c ∷ rest
    → (a * 65536 + b * 256 + c) / 262144 % 64 ≡ m
    → (a * 65536 + b * 256 + c) / 4096 % 64 ≡ n
    → (a * 65536 + b * 256 + c) / 64 % 64 ≡ o
    → (a * 65536 + b * 256 + c) % 64 ≡ l
    → to_base64_url bs
      ≡ base64_symbol m ∷ base64_symbol n ∷ base64_symbol o ∷ base64_symbol l ∷ to_base64_url rest
unfolding to_base64_url
encode_block a b c m n o l bs rest e p q r t = rw (e, p, q, r, t) refl

encode_four :
    (m n o l accumulator : ℕ) (cs bs : Text)
    → m < 64
    → n < 64
    → o < 64
    → l < 64
    → decode_symbols
        (base64_symbol m ∷ base64_symbol n ∷ base64_symbol o ∷ base64_symbol l ∷ cs)
        accumulator
        0
      ≡ ok bs
    → (rest : Text) × (d : ℕ) × (decode_symbols cs d 0 ≡ ok rest)
      × (to_base64_url bs
          ≡ base64_symbol m
            ∷ base64_symbol n
            ∷ base64_symbol o
            ∷ base64_symbol l
            ∷ to_base64_url rest)
encode_four m n o l accumulator cs bs p q r t h =
    let x : ℕ = shifted accumulator m in
    let y : ℕ = shifted x n in
    let z : ℕ = shifted y o in
    let w : ℕ = shifted z l in
    let (more, e, s) =
      emit_byte-ok (y / 16 % 256) (decode_symbols (base64_symbol o ∷ base64_symbol l ∷ cs) y 4)
        {bs = bs}
        (cc (
          h,
          decode_at_zero m (base64_symbol n ∷ base64_symbol o ∷ base64_symbol l ∷ cs) accumulator p,
          decode_at_six n (base64_symbol o ∷ base64_symbol l ∷ cs) x q,
        )) in
    let (last, e', s') =
      emit_byte-ok (z / 4 % 256) (decode_symbols (base64_symbol l ∷ cs) z 2) {bs = more}
        (cc (e, decode_at_four o (base64_symbol l ∷ cs) y r)) in
    let (rest, e'', s'') =
      emit_byte-ok (w / 1 % 256) (decode_symbols cs w 0) {bs = last}
        (cc (e', decode_at_two l cs z t)) in
    let a : ℕ = y / 16 % 256 in
    let b : ℕ = z / 4 % 256 in
    let c : ℕ = w / 1 % 256 in
    let first : (a * 65536 + b * 256 + c) / 262144 % 64 ≡ m = omega arith in
    let second : (a * 65536 + b * 256 + c) / 4096 % 64 ≡ n = omega arith in
    let third : (a * 65536 + b * 256 + c) / 64 % 64 ≡ o = omega arith in
    let fourth : (a * 65536 + b * 256 + c) % 64 ≡ l = omega arith in
    (rest, w, e'', encode_block a b c m n o l bs rest (cc (s, s', s'')) first second third fourth)

to_base64_url-nil : to_base64_url [] ≡ []
unfolding to_base64_url
to_base64_url-nil = refl

to_base64_url-decode_symbols :
    (ns : List ℕ) (accumulator : ℕ) (bs : Text)
    → AreValues ns
    → eqb (length ns % 4) 1 ≡ false
    → decode_symbols (map base64_symbol ns) accumulator 0 ≡ ok bs
    → to_base64_url bs ≡ map base64_symbol ns
unfolding AreValues
to_base64_url-decode_symbols [] accumulator bs v l h =
    let nil = (decode_end accumulator).0 h in rw nil to_base64_url-nil
to_base64_url-decode_symbols (m ∷ []) accumulator bs v l h = absurd (ground arith)
to_base64_url-decode_symbols (m ∷ n ∷ []) accumulator bs v l h =
    encode_two m n accumulator bs v.0 v.1.0 h
to_base64_url-decode_symbols (m ∷ n ∷ o ∷ []) accumulator bs v l h =
    encode_three m n o accumulator bs v.0 v.1.0 v.1.1.0 h
to_base64_url-decode_symbols (m ∷ n ∷ o ∷ l ∷ ns) accumulator bs v g h =
    let (rest, d, e, s) =
      encode_four m n o l accumulator (map base64_symbol ns) bs v.0 v.1.0 v.1.1.0 v.1.1.1.0 h in
    rw (s, to_base64_url-decode_symbols ns d rest v.1.1.1.1 (ground arith) e) refl

length-map_symbols : (ns : List ℕ) → length (map base64_symbol ns) ≡ length ns
length-map_symbols [] = refl
length-map_symbols (n ∷ ns) = ground (arith, length-map_symbols ns)

-- Bytes that are read from Base64url have no other spelling, but for padding: they are written as the
-- text that was read, less the `=` at its end.
pub to_base64_url-from_base64_url :
    (text bs : Text) → from_base64_url text ≡ ok bs → to_base64_url bs ≡ trim_padding text
unfolding from_base64_url
to_base64_url-from_base64_url text bs h =
    let (ns, v, e) = decoded_symbols (trim_padding text) 0 0 {bs = bs} (ground arith) in
    let written =
      to_base64_url-decode_symbols ns 0 bs v (ground (arith, length-map_symbols ns))
        (rw e (ground arith)) in
    rw (written, e) refl
