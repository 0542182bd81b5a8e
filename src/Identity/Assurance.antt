-- ===== src/Identity/Assurance.antt =====
-- src/identity/provider/assurance: the level of assurance and the strength of an authentication.
use openproof.Base.{ℕ, ◌+◌, ◌/◌, ◌%◌, Bool, leb}

pub data AssuranceLevel : Type 0 where
  ial0 ial1 ial2 ial3 ial4 : AssuranceLevel

-- The value of the enumerator.
abbrev pub rank : AssuranceLevel → ℕ
rank ial0 = 0
rank ial1 = 1
rank ial2 = 2
rank ial3 = 3
rank ial4 = 4

unfoldable pub meets_assurance : AssuranceLevel → AssuranceLevel → Bool
meets_assurance actual required = leb (rank required) (rank actual)

-- The factors are a mask of one byte: knowledge 1, possession 2, inherence 4.
pub record AuthenticationStrength : Type 0 where
  pub factors : ℕ
  pub phishing_resistant : Bool

-- `std::popcount` of a byte.
popcount : ℕ → ℕ
popcount x =
    x % 2 + x / 2 % 2 + x / 4 % 2 + x / 8 % 2 + x / 16 % 2 + x / 32 % 2 + x / 64 % 2 + x / 128 % 2

unfoldable pub is_multi_factor : AuthenticationStrength → Bool
unfolding popcount
is_multi_factor s = leb 2 (popcount s.factors)
