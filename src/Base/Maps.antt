-- ===== src/Base/Maps.antt =====
-- `std::map`: entries in the order of their keys. The laws of look-up hold of every list of
-- entries; those of a loop that drops entries want the keys in order, so distinct.
use mathlib.Core.Path.{◌≡◌, refl, subst}
use mathlib.Core.Logic.{inl, inr}
use mathlib.Core.Bool.{Bool, true, false}
use mathlib.Core.Option.{Option, none, some}
use mathlib.Core.List.{List, [], ◌∷◌}
use native.Mathlib.Omega.{arith}
use openproof.Base.Tests.{if◌then◌else◌, Bool-cases}
use openproof.Base.Keys.{Key, ◌==◌, eq_iff}

abbrev pub Map {ℓ κ} : Type ℓ → Type κ → Type (ℓ ⊔ κ)
Map K V = List (K × V)

abbrev pub is_some {ℓ} : {A : Type ℓ} → Option A → Bool
is_some none = false
is_some (some a) = true

abbrev pub map_option {ℓ κ} : {A : Type ℓ} {B : Type κ} → (A → B) → Option A → Option B
map_option f none = none
map_option f (some a) = some (f a)

-- The value, if it passes the test.
abbrev pub filter_option {ℓ} : {A : Type ℓ} → (A → Bool) → Option A → Option A
filter_option p none = none
filter_option p (some a) = if p a then some a else none

module _ {ℓ κ} {K : Type ℓ} {V : Type κ} ⦃k : Key K⦄ where
  abbrev pub lookup : K → Map K V → Option V
  lookup i [] = none
  lookup i ((j, v) ∷ m) = if j == i then some v else lookup i m

  abbrev pub contains_key : K → Map K V → Bool
  contains_key i m = is_some (lookup i m)

  -- `insert_or_assign`; `emplace` and an assignment through an iterator are its two cases.
  unfoldable pub insert : K → V → Map K V → Map K V
  insert i v [] = (i, v) ∷ []
  insert i v ((j, w) ∷ m) =
      let rest = insert i v m in
      if j == i then (i, v) ∷ m else if k.before i j then (i, v) ∷ (j, w) ∷ m else (j, w) ∷ rest

  unfoldable pub erase : K → Map K V → Map K V
  erase i [] = []
  erase i ((j, v) ∷ m) = let rest = erase i m in if j == i then rest else (j, v) ∷ rest

  pub lookup-insert :
      (i j : K) (v : V) (m : Map K V)
      → lookup j (insert i v m) ≡ (if i == j then some v else lookup j m)
  unfolding insert
  lookup-insert i j v [] = refl
  lookup-insert i j v ((h, w) ∷ m) =
      ground (arith, eq_iff i j, eq_iff h i, eq_iff h j, lookup-insert i j v m)

  pub lookup-erase :
      (i j : K) (m : Map K V) → lookup j (erase i m) ≡ (if i == j then none else lookup j m)
  unfolding erase
  lookup-erase i j [] = ground arith
  lookup-erase i j ((h, w) ∷ m) =
      ground (arith, eq_iff i j, eq_iff h i, eq_iff h j, lookup-erase i j m)

  -- Every key comes after `i`.
  abbrev pub Above : K → Map K V → Type 0
  Above i [] = Unit
  Above i ((j, v) ∷ m) = (k.before i j ≡ true) × Above i m

  abbrev pub IsSorted : Map K V → Type 0
  IsSorted [] = Unit
  IsSorted ((j, v) ∷ m) = Above j m × IsSorted m

  Above-trans : (i j : K) (m : Map K V) → k.before i j ≡ true → Above j m → Above i m
  Above-trans i j [] h a = tt
  Above-trans i j ((g, v) ∷ m) h a = (k.before_trans i j g h a.0, Above-trans i j m h a.1)

  pub lookup-Above : (i : K) (m : Map K V) → Above i m → lookup i m ≡ none
  lookup-Above i [] a = refl
  lookup-Above i ((j, v) ∷ m) a =
      ground (arith, eq_iff j i, k.before_irrefl i, lookup-Above i m a.1)

  Above-insert :
      (h i : K) (v : V) (m : Map K V) → k.before h i ≡ true → Above h m → Above h (insert i v m)
  unfolding insert
  Above-insert h i v [] p a = (p, tt)
  Above-insert h i v ((j, w) ∷ m) p a = ground (arith, Above-insert h i v m p a.1)

  pub insert-IsSorted : (i : K) (v : V) (m : Map K V) → IsSorted m → IsSorted (insert i v m)
  unfolding insert
  insert-IsSorted i v [] s = (tt, tt)
  insert-IsSorted i v ((j, w) ∷ m) s = elim (Bool-cases (j == i)) [
    | inl same ↦ rw same (subst (λ h. Above h m) ((eq_iff j i).0 same) s.0, s.1)
    | inr other ↦ elim (Bool-cases (k.before i j)) [
      | inl p ↦ rw (other, p) ((p, Above-trans i j m p s.0), s)
      | inr p ↦
          rw (other, p)
            (
              Above-insert j i v m (k.before_total i j (ground (arith, eq_iff i j, eq_iff j i)) p)
                  s.0,
              insert-IsSorted i v m s.1,
            )
    ]
  ]

  Above-erase : (h i : K) (m : Map K V) → Above h m → Above h (erase i m)
  unfolding erase
  Above-erase h i [] a = tt
  Above-erase h i ((j, w) ∷ m) a = ground (arith, Above-erase h i m a.1)

  pub erase-IsSorted : (i : K) (m : Map K V) → IsSorted m → IsSorted (erase i m)
  unfolding erase
  erase-IsSorted i [] s = tt
  erase-IsSorted i ((j, w) ∷ m) s = ground (arith, Above-erase j i m s.0, erase-IsSorted i m s.1)

  -- A loop that rewrites each value in place.
  unfoldable pub map_values : (V → V) → Map K V → Map K V
  map_values f [] = []
  map_values f ((j, v) ∷ m) = (j, f v) ∷ map_values f m

  pub lookup-map_values :
      (f : V → V) (i : K) (m : Map K V) → lookup i (map_values f m) ≡ map_option f (lookup i m)
  unfolding map_values
  lookup-map_values f i [] = refl
  lookup-map_values f i ((j, v) ∷ m) = ground (arith, lookup-map_values f i m)

  pub Above-map_values : (f : V → V) (i : K) (m : Map K V) → Above i m → Above i (map_values f m)
  unfolding map_values
  Above-map_values f i [] a = tt
  Above-map_values f i ((j, v) ∷ m) a = (a.0, Above-map_values f i m a.1)

  pub map_values-IsSorted : (f : V → V) (m : Map K V) → IsSorted m → IsSorted (map_values f m)
  unfolding map_values
  map_values-IsSorted f [] s = tt
  map_values-IsSorted f ((j, v) ∷ m) s = (Above-map_values f j m s.0, map_values-IsSorted f m s.1)

  -- A loop that erases the entries whose value fails the test.
  unfoldable pub retain : (V → Bool) → Map K V → Map K V
  retain p [] = []
  retain p ((j, v) ∷ m) = let rest = retain p m in if p v then (j, v) ∷ rest else rest

  Above-retain : (p : V → Bool) (i : K) (m : Map K V) → Above i m → Above i (retain p m)
  unfolding retain
  Above-retain p i [] a = tt
  Above-retain p i ((j, v) ∷ m) a = ground (arith, Above-retain p i m a.1)

  pub retain-IsSorted : (p : V → Bool) (m : Map K V) → IsSorted m → IsSorted (retain p m)
  unfolding retain
  retain-IsSorted p [] s = tt
  retain-IsSorted p ((j, v) ∷ m) s = ground (arith, Above-retain p j m s.0, retain-IsSorted p m s.1)

  pub lookup-retain :
      (p : V → Bool) (i : K) (m : Map K V)
      → IsSorted m
      → lookup i (retain p m) ≡ filter_option p (lookup i m)
  unfolding retain
  lookup-retain p i [] s = refl
  lookup-retain p i ((j, v) ∷ m) s = ground (
    arith,
    eq_iff j i,
    lookup-retain p i m s.1,
    lookup-Above j (retain p m),
    Above-retain p j m s.0,
  )

-- The laws of look-up.
pub ruleset map_laws = (lookup-insert, lookup-erase, lookup-map_values)
