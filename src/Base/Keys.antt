-- ===== src/Base/Keys.antt =====
-- Keys of the maps and sets: equality and a strict total order as Boolean tests. The instances
-- are the native numbers and byte strings, ordered as `std::string` and `std::array` order them.
use Prim.Native.Nat.{ℕ}
use Prim.Native.Char.{code}
use Prim.Native.String.{String}
use mathlib.Core.Path.{◌≡◌, refl}
use mathlib.Core.Logic.{◌↔◌}
use mathlib.Core.Bool.{Bool, true, false}
use mathlib.Core.List.{List, [], ◌∷◌}
use native.Mathlib.Omega.{arith}
use openproof.Base.Tests.{ltb, eqb, if◌then◌else◌}

pub record Key {ℓ} (A : Type ℓ) : Type ℓ where
  pub beq : A → A → Bool
  pub before : A → A → Bool
  pub beq_iff : (a b : A) → (beq a b ≡ true) ↔ (a ≡ b)
  pub before_irrefl : (a : A) → before a a ≡ false
  pub before_trans : (a b c : A) → before a b ≡ true → before b c ≡ true → before a c ≡ true
  pub before_total : (a b : A) → beq a b ≡ false → before a b ≡ false → before b a ≡ true

infix 50 ◌==◌ ◌!=◌
abbrev pub ◌==◌ {ℓ} : {A : Type ℓ} ⦃k : Key A⦄ → A → A → Bool
◌==◌ ⦃k⦄ = k.beq

abbrev pub ◌!=◌ {ℓ} : {A : Type ℓ} ⦃k : Key A⦄ → A → A → Bool
a != b = if a == b then false else true

pub eq_iff {ℓ} : {A : Type ℓ} ⦃k : Key A⦄ (a b : A) → ((a == b) ≡ true) ↔ (a ≡ b)
eq_iff ⦃k⦄ = k.beq_iff

pub eq_refl {ℓ} : {A : Type ℓ} ⦃k : Key A⦄ (a : A) → (a == a) ≡ true
eq_refl ⦃k⦄ a = (k.beq_iff a a).1 refl

-- The bytes of a `std::string`, or of a digest.
abbrev pub Text : Type 0
Text = List ℕ

abbrev pub bytes : String → Text
bytes String.[] = []
bytes (String.◌∷◌ c s) = code c ∷ bytes s

abbrev pub is_empty {ℓ} : {A : Type ℓ} → List A → Bool
is_empty [] = true
is_empty (x ∷ xs) = false

abbrev text_beq : Text → Text → Bool
text_beq [] [] = true
text_beq [] (y ∷ ys) = false
text_beq (x ∷ xs) [] = false
text_beq (x ∷ xs) (y ∷ ys) = let rest = text_beq xs ys in if eqb x y then rest else false

abbrev text_before : Text → Text → Bool
text_before [] [] = false
text_before [] (y ∷ ys) = true
text_before (x ∷ xs) [] = false
text_before (x ∷ xs) (y ∷ ys) =
    let rest = text_before xs ys in if ltb x y then true else if eqb x y then rest else false

pub text_beq_iff : (a b : Text) → (text_beq a b ≡ true) ↔ (a ≡ b)
text_beq_iff [] [] = ground arith
text_beq_iff [] (y ∷ ys) = ground arith
text_beq_iff (x ∷ xs) [] = ground arith
text_beq_iff (x ∷ xs) (y ∷ ys) = ground (arith, text_beq_iff xs ys)

pub text_before_irrefl : (a : Text) → text_before a a ≡ false
text_before_irrefl [] = refl
text_before_irrefl (x ∷ xs) = ground (arith, text_before_irrefl xs)

pub text_before_trans :
    (a b c : Text) → text_before a b ≡ true → text_before b c ≡ true → text_before a c ≡ true
text_before_trans [] [] c p q = ground arith
text_before_trans [] (y ∷ ys) [] p q = ground arith
text_before_trans [] (y ∷ ys) (z ∷ zs) p q = refl
text_before_trans (x ∷ xs) [] c p q = ground arith
text_before_trans (x ∷ xs) (y ∷ ys) [] p q = ground arith
text_before_trans (x ∷ xs) (y ∷ ys) (z ∷ zs) p q = ground (arith, text_before_trans xs ys zs)

pub text_before-total :
    (a b : Text) → text_beq a b ≡ false → text_before a b ≡ false → text_before b a ≡ true
text_before-total [] [] p q = ground arith
text_before-total [] (y ∷ ys) p q = ground arith
text_before-total (x ∷ xs) [] p q = refl
text_before-total (x ∷ xs) (y ∷ ys) p q = ground (arith, text_before-total xs ys)

instance abbrev pub text_key : Key (List ℕ)
text_key = record {
  beq = text_beq;
  before = text_before;
  beq_iff = text_beq_iff;
  before_irrefl = text_before_irrefl;
  before_trans = text_before_trans;
  before_total = text_before-total;
}

-- Pairs, by the first part and then by the second.
module _ {ℓ κ} {A : Type ℓ} {B : Type κ} ⦃j : Key A⦄ ⦃k : Key B⦄ where
  abbrev pair_beq : A × B → A × B → Bool
  pair_beq (a, b) (c, d) = if j.beq a c then k.beq b d else false

  abbrev pair_before : A × B → A × B → Bool
  pair_before (a, b) (c, d) =
      if j.before a c then true else if j.beq a c then k.before b d else false

  pub pair_beq_iff : (p q : A × B) → (pair_beq p q ≡ true) ↔ (p ≡ q)
  pair_beq_iff (a, b) (c, d) = ground (arith, j.beq_iff a c, k.beq_iff b d)

  pub pair_before_irrefl : (p : A × B) → pair_before p p ≡ false
  pair_before_irrefl (a, b) = ground (arith, j.before_irrefl a, k.before_irrefl b)

  pub pair_before_trans :
      (p q r : A × B) → pair_before p q ≡ true → pair_before q r ≡ true → pair_before p r ≡ true
  pair_before_trans (a, b) (c, d) (e, f) h g = ground (
    arith,
    j.beq_iff a c,
    j.beq_iff c e,
    j.beq_iff a e,
    j.before_trans a c e,
    k.before_trans b d f,
  )

  pub pair_before-total :
      (p q : A × B) → pair_beq p q ≡ false → pair_before p q ≡ false → pair_before q p ≡ true
  pair_before-total (a, b) (c, d) h g =
      ground (arith, j.beq_iff a c, j.beq_iff c a, j.before_total a c, k.before_total b d)

  instance abbrev pub pair_key : Key (A × B)
  pair_key = record {
    beq = pair_beq;
    before = pair_before;
    beq_iff = pair_beq_iff;
    before_irrefl = pair_before_irrefl;
    before_trans = pair_before_trans;
    before_total = pair_before-total;
  }
