-- ===== src/Security.antt =====
-- src/security/hash.cpp over the cryptographic library, which is a parameter: `CRYPTO_memcmp`,
-- whose result is 0 exactly at equal buffers of one length, and `HMAC` and `EVP_Digest` with SHA-256,
-- which may fail.
use openproof.Base.{
  ℕ, ◌≡◌, ◌↔◌, Bool, true, false, Option, none, some, Text, [], ◌∷◌, arith, ltb, eqb, if◌then◌else◌,
  length, is_empty,
}
use openproof.Foundation.{Result, ok, fail, invalid_argument, internal}

pub record Crypto : Type 0 where
  pub memcmp : Text → Text → ℕ
  pub memcmp_zero : (a b : Text) → length a ≡ length b → (memcmp a b ≡ 0) ↔ (a ≡ b)
  pub hmac : Text → Text → Option Text
  pub evp_sha256 : Text → Option Text

-- The largest `int`, as `INT_MAX` of the platforms that the program is built for.
abbrev pub int_max : ℕ
int_max = 2147483647

-- The second test of the code, on its result: a digest is 32 bytes.
or_internal : Option Text → Result Text
or_internal none = fail internal
or_internal (some digest) = if eqb (length digest) 32 then ok digest else fail internal

module _ ⦃crypto : Crypto⦄ where
  unfoldable pub constant_time_equals : Text → Text → Bool
  constant_time_equals left right =
      if eqb (length left) (length right)
      then (if is_empty left then true else eqb (crypto.memcmp left right) 0)
      else false

  unfoldable pub sha256 : Text → Result Text
  unfolding or_internal
  sha256 text = or_internal (crypto.evp_sha256 text)

  unfoldable pub hmac_sha256 : Text → Text → Result Text
  unfolding or_internal
  hmac_sha256 key text =
      if is_empty key
      then fail invalid_argument
      else if ltb int_max (length key)
      then fail invalid_argument
      else or_internal (crypto.hmac key text)

  -- The comparison in constant time is the equality of bytes.
  pub constant_time_equals_iff :
      (left right : Text) → (constant_time_equals left right ≡ true) ↔ (left ≡ right)
  unfolding constant_time_equals
  constant_time_equals_iff [] [] = ground arith
  constant_time_equals_iff [] (y ∷ ys) = ground arith
  constant_time_equals_iff (x ∷ xs) [] = ground arith
  constant_time_equals_iff (x ∷ xs) (y ∷ ys) = ground (arith, crypto.memcmp_zero (x ∷ xs) (y ∷ ys))
