-- ===== src/Base/Texts.antt =====
-- `std::string_view` as the program uses it: prefixes, searches for a byte, and the parts around it.
use Prim.Native.Nat.{ℕ}
use mathlib.Core.Path.{◌≡◌, refl}
use mathlib.Core.Logic.{inl, inr}
use native.Mathlib.Omega.{arith}
use mathlib.Core.Bool.{Bool, true, false}
use mathlib.Core.Option.{Option, none, some}
use mathlib.Core.List.{[], ◌∷◌, ◌++◌}
use openproof.Base.Tests.{Option-cases, eqb, if◌then◌else◌}
use openproof.Base.Keys.{Text}

-- `starts_with`, and the rest after the prefix.
unfoldable pub strip_prefix : Text → Text → Option Text
strip_prefix [] text = some text
strip_prefix (x ∷ xs) [] = none
strip_prefix (x ∷ xs) (y ∷ ys) = let rest = strip_prefix xs ys in if eqb x y then rest else none

-- `substr(0, find_first_of(...))`: up to the first byte that passes the test.
unfoldable pub take_until : (ℕ → Bool) → Text → Text
take_until p [] = []
take_until p (x ∷ xs) = let rest = take_until p xs in if p x then [] else x ∷ rest

-- The suffix from that byte on, which is empty where there is none.
unfoldable pub drop_until : (ℕ → Bool) → Text → Text
drop_until p [] = []
drop_until p (x ∷ xs) = let rest = drop_until p xs in if p x then x ∷ xs else rest

prepend : ℕ → Option (Text × Text) → Option (Text × Text)
prepend x none = none
prepend x (some (before, after)) = some (x ∷ before, after)

-- The parts before and after the first such byte: `find`.
unfoldable pub split_first : ℕ → Text → Option (Text × Text)
unfolding prepend
split_first c [] = none
split_first c (x ∷ xs) =
    let rest = prepend x (split_first c xs) in if eqb x c then some ([], xs) else rest

or_here : ℕ → ℕ → Text → Option (Text × Text) → Option (Text × Text)
or_here c x xs (some (before, after)) = some (x ∷ before, after)
or_here c x xs none = if eqb x c then some ([], xs) else none

-- The parts before and after the last such byte: `rfind`.
unfoldable pub split_last : ℕ → Text → Option (Text × Text)
unfolding or_here
split_last c [] = none
split_last c (x ∷ xs) = or_here c x xs (split_last c xs)

-- `contains` of one byte.
unfoldable pub has_byte : ℕ → Text → Bool
has_byte c [] = false
has_byte c (x ∷ xs) = let rest = has_byte c xs in if eqb x c then true else rest

pub strip_prefix_sound : (p s : Text) {rest : Text} → strip_prefix p s ≡ some rest → s ≡ p ++ rest
unfolding strip_prefix
strip_prefix_sound [] s h = ground arith
strip_prefix_sound (x ∷ p) [] h = absurd (ground arith)
strip_prefix_sound (x ∷ p) (y ∷ s) {rest} h = ground (arith, strip_prefix_sound p s {rest = rest})

pub take_until-drop_until : (p : ℕ → Bool) (s : Text) → s ≡ take_until p s ++ drop_until p s
unfolding take_until drop_until
take_until-drop_until p [] = refl
take_until-drop_until p (c ∷ s) = ground (arith, take_until-drop_until p s)

pub split_first_sound :
    (c : ℕ) (s : Text) {before after : Text}
    → split_first c s ≡ some (before, after)
    → s ≡ before ++ (c ∷ after)
unfolding split_first
split_first_sound c [] h = absurd (ground arith)
split_first_sound c (x ∷ s) {before} {after} h = elim (Option-cases (split_first c s)) [
  | inl p ↦ ground arith
  | inr ((b, a), p) ↦ ground (arith, split_first_sound c s p)
]

pub split_last_sound :
    (c : ℕ) (s : Text) {before after : Text}
    → split_last c s ≡ some (before, after)
    → s ≡ before ++ (c ∷ after)
unfolding split_last
split_last_sound c [] h = absurd (ground arith)
split_last_sound c (x ∷ s) {before} {after} h = elim (Option-cases (split_last c s)) [
  | inl p ↦ ground arith
  | inr ((b, a), p) ↦ ground (arith, split_last_sound c s p)
]

pub split_last-none : (c : ℕ) (s : Text) → split_last c s ≡ none → has_byte c s ≡ false
unfolding split_last has_byte
split_last-none c [] h = refl
split_last-none c (x ∷ s) h = elim (Option-cases (split_last c s)) [
  | inl p ↦ ground (arith, split_last-none c s)
  | inr ((b, a), p) ↦ absurd (ground arith)
]
