-- ===== src/Base/Lists.antt =====
-- Vectors: length, membership by key, the ranges algorithms that the program calls, and
-- `sort` with `unique`, whose result is the strictly ascending list of the same elements.
use Prim.Native.Nat.{ℕ, suc}
use mathlib.Core.Path.{◌≡◌, refl}
use mathlib.Core.Logic.{inl, inr}
use mathlib.Core.Bool.{Bool, true, false}
use mathlib.Core.List.{List, [], ◌∷◌}
use native.Mathlib.Omega.{arith}
use openproof.Base.Tests.{if◌then◌else◌, Bool-cases}
use openproof.Base.Keys.{Key, ◌==◌, eq_iff}

module _ {ℓ} {A : Type ℓ} where
  abbrev pub length : List A → ℕ
  length [] = 0
  length (x ∷ xs) = suc (length xs)

  -- Each element satisfies `P`.
  abbrev pub All {κ} : (A → Type κ) → List A → Type κ
  All P [] = Unit
  All P (x ∷ xs) = P x × All P xs

  -- `std::ranges::all_of`, `any_of`, and `std::erase_if` with the test negated.
  unfoldable pub all_of : (A → Bool) → List A → Bool
  all_of p [] = true
  all_of p (x ∷ xs) = let rest = all_of p xs in if p x then rest else false

  unfoldable pub any_of : (A → Bool) → List A → Bool
  any_of p [] = false
  any_of p (x ∷ xs) = let rest = any_of p xs in if p x then true else rest

  unfoldable pub keep_if : (A → Bool) → List A → List A
  keep_if p [] = []
  keep_if p (x ∷ xs) = let rest = keep_if p xs in if p x then x ∷ rest else rest

  pub keep_if-All : (p : A → Bool) (xs : List A) → All (λ x. p x ≡ true) (keep_if p xs)
  unfolding keep_if
  keep_if-All p [] = tt
  keep_if-All p (x ∷ xs) = elim (Bool-cases (p x)) [
    | inl e ↦ rw e (e, keep_if-All p xs)
    | inr e ↦ rw e (keep_if-All p xs)
  ]

  pub All-mono {κ μ} :
      {P : A → Type κ} {Q : A → Type μ} (xs : List A) → ((x : A) → P x → Q x) → All P xs → All Q xs
  All-mono [] f a = tt
  All-mono (x ∷ xs) f a = (f x a.0, All-mono xs f a.1)

module _ {ℓ} {A : Type ℓ} ⦃k : Key A⦄ where
  -- `std::ranges::find(...) != end`; on an ascending range also `binary_search`.
  unfoldable pub contains : A → List A → Bool
  contains a [] = false
  contains a (x ∷ xs) = let rest = contains a xs in if x == a then true else rest

  -- One element put in its place in an ascending list, unless it is there.
  unfoldable pub place : A → List A → List A
  place a [] = a ∷ []
  place a (x ∷ xs) =
      let rest = place a xs in
      if x == a then x ∷ xs else if k.before a x then a ∷ x ∷ xs else x ∷ rest

  -- `std::ranges::sort`, then `erase(unique(...))`.
  unfoldable pub sort_unique : List A → List A
  sort_unique [] = []
  sort_unique (x ∷ xs) = place x (sort_unique xs)

  abbrev pub AllAfter : A → List A → Type 0
  AllAfter a [] = Unit
  AllAfter a (x ∷ xs) = (k.before a x ≡ true) × AllAfter a xs

  -- The precondition of `binary_search`, and no element twice.
  abbrev pub IsAscending : List A → Type 0
  IsAscending [] = Unit
  IsAscending (x ∷ xs) = AllAfter x xs × IsAscending xs

  AllAfter-trans : (a b : A) (xs : List A) → k.before a b ≡ true → AllAfter b xs → AllAfter a xs
  AllAfter-trans a b [] h u = tt
  AllAfter-trans a b (x ∷ xs) h u = (k.before_trans a b x h u.0, AllAfter-trans a b xs h u.1)

  AllAfter-place :
      (b a : A) (xs : List A) → k.before b a ≡ true → AllAfter b xs → AllAfter b (place a xs)
  unfolding place
  AllAfter-place b a [] h u = (h, tt)
  AllAfter-place b a (x ∷ xs) h u = ground (arith, AllAfter-place b a xs h u.1)

  pub place-IsAscending : (a : A) (xs : List A) → IsAscending xs → IsAscending (place a xs)
  unfolding place
  place-IsAscending a [] s = (tt, tt)
  place-IsAscending a (x ∷ xs) s = elim (Bool-cases (x == a)) [
    | inl same ↦ rw same s
    | inr other ↦ elim (Bool-cases (k.before a x)) [
      | inl p ↦ rw (other, p) ((p, AllAfter-trans a x xs p s.0), s)
      | inr p ↦
          rw (other, p)
            (
              AllAfter-place x a xs (k.before_total a x (ground (arith, eq_iff a x, eq_iff x a)) p)
                  s.0,
              place-IsAscending a xs s.1,
            )
    ]
  ]

  pub sort_unique-IsAscending : (xs : List A) → IsAscending (sort_unique xs)
  unfolding sort_unique
  sort_unique-IsAscending [] = tt
  sort_unique-IsAscending (x ∷ xs) =
      place-IsAscending x (sort_unique xs) (sort_unique-IsAscending xs)

  pub contains-place : (b a : A) (xs : List A) → contains b (place a xs) ≡ contains b (a ∷ xs)
  unfolding place contains
  contains-place b a [] = refl
  contains-place b a (x ∷ xs) =
      ground (arith, eq_iff x a, eq_iff x b, eq_iff a b, contains-place b a xs)

  -- Sorting without duplicates keeps exactly the elements.
  pub contains-sort_unique : (a : A) (xs : List A) → contains a (sort_unique xs) ≡ contains a xs
  unfolding sort_unique contains
  contains-sort_unique a [] = refl
  contains-sort_unique a (x ∷ xs) =
      ground (arith, contains-place a x (sort_unique xs), contains-sort_unique a xs)
