-- ===== src/Base/Sorting.antt =====
-- `std::ranges::sort` by a projection, `adjacent_find` on the result, and the search by key. The
-- order of elements with equal keys is the one before the sort.
use mathlib.Core.Path.{◌≡◌, subst}
use mathlib.Core.Logic.{◌⊎◌, inl, inr}
use mathlib.Core.Bool.{Bool, true, false}
use mathlib.Core.Option.{Option, none, some}
use mathlib.Core.List.{List, [], ◌∷◌}
use native.Mathlib.Omega.{arith}
use openproof.Base.Tests.{if◌then◌else◌, Bool-cases}
use openproof.Base.Keys.{Key, ◌==◌, eq_iff}

-- The list has the element.
abbrev pub Member : {A : Type 0} → A → List A → Type 0
Member a [] = ⊥
Member a (x ∷ xs) = (x ≡ a) ⊎ Member a xs

module _ {κ} {A : Type 0} {K : Type κ} ⦃k : Key K⦄ (key : A → K) where
  unfoldable pub insert_by : A → List A → List A
  insert_by a [] = a ∷ []
  insert_by a (x ∷ xs) =
      let rest = insert_by a xs in if k.before (key x) (key a) then x ∷ rest else a ∷ x ∷ xs

  unfoldable pub sort_by : List A → List A
  sort_by [] = []
  sort_by (x ∷ xs) = insert_by x (sort_by xs)

  -- `adjacent_find(...) != end`.
  unfoldable pub has_adjacent : List A → Bool
  has_adjacent [] = false
  has_adjacent (x ∷ []) = false
  has_adjacent (x ∷ y ∷ ys) = if key x == key y then true else has_adjacent (y ∷ ys)

  -- `find_if` of the key.
  unfoldable pub find_by : K → List A → Option A
  find_by q [] = none
  find_by q (x ∷ xs) = let rest = find_by q xs in if key x == q then some x else rest

  abbrev IsNext : A → List A → Type 0
  IsNext a [] = Unit
  IsNext a (x ∷ xs) = k.before (key x) (key a) ≡ false

  -- No element comes before the one in front of it.
  abbrev pub IsInOrder : List A → Type 0
  IsInOrder [] = Unit
  IsInOrder (x ∷ xs) = IsNext x xs × IsInOrder xs

  abbrev pub AllBeyond : K → List A → Type 0
  AllBeyond q [] = Unit
  AllBeyond q (x ∷ xs) = (k.before q (key x) ≡ true) × AllBeyond q xs

  -- The keys ascend, so no two elements have one key.
  abbrev pub IsStrict : List A → Type 0
  IsStrict [] = Unit
  IsStrict (x ∷ xs) = AllBeyond (key x) xs × IsStrict xs

  before_asym : (a b : K) → k.before a b ≡ true → k.before b a ≡ false
  before_asym a b h = elim (Bool-cases (k.before b a)) [
    | inr e ↦ e
    | inl e ↦ absurd (ground (arith, k.before_trans a b a h e, k.before_irrefl a))
  ]

  IsNext-insert :
      (a x : A) (xs : List A)
      → k.before (key x) (key a) ≡ true
      → IsNext x xs
      → IsNext x (insert_by a xs)
  unfolding insert_by
  IsNext-insert a x [] h n = before_asym (key x) (key a) h
  IsNext-insert a x (y ∷ ys) h n = ground (arith, before_asym (key x) (key a) h)

  insert-IsInOrder : (a : A) (xs : List A) → IsInOrder xs → IsInOrder (insert_by a xs)
  unfolding insert_by
  insert-IsInOrder a [] o = (tt, tt)
  insert-IsInOrder a (x ∷ xs) o = elim (Bool-cases (k.before (key x) (key a))) [
    | inl p ↦ rw p (IsNext-insert a x xs p o.0, insert-IsInOrder a xs o.1)
    | inr p ↦ rw p (p, o)
  ]

  pub sort-IsInOrder : (xs : List A) → IsInOrder (sort_by xs)
  unfolding sort_by
  sort-IsInOrder [] = tt
  sort-IsInOrder (x ∷ xs) = insert-IsInOrder x (sort_by xs) (sort-IsInOrder xs)

  AllBeyond-trans : (a b : K) (xs : List A) → k.before a b ≡ true → AllBeyond b xs → AllBeyond a xs
  AllBeyond-trans a b [] h u = tt
  AllBeyond-trans a b (x ∷ xs) h u =
      (k.before_trans a b (key x) h u.0, AllBeyond-trans a b xs h u.1)

  -- In order and without a repeated neighbour, the keys ascend.
  pub in_order-IsStrict : (xs : List A) → IsInOrder xs → has_adjacent xs ≡ false → IsStrict xs
  unfolding has_adjacent
  in_order-IsStrict [] o h = tt
  in_order-IsStrict (x ∷ []) o h = (tt, tt)
  in_order-IsStrict (x ∷ y ∷ ys) o h =
      let strict : IsStrict (y ∷ ys) = in_order-IsStrict (y ∷ ys) o.1 (ground arith) in
      let next : k.before (key x) (key y) ≡ true =
        k.before_total (key y) (key x)
          (ground (arith, eq_iff (key x) (key y), eq_iff (key y) (key x))) o.0 in
      ((next, AllBeyond-trans (key x) (key y) ys next strict.0), strict)

  Member-insert : (b a : A) (xs : List A) → Member b (a ∷ xs) → Member b (insert_by a xs)
  unfolding insert_by
  Member-insert b a [] m = m
  Member-insert b a (x ∷ xs) m = elim (Bool-cases (k.before (key x) (key a))) [
    | inr p ↦ rw p m
    | inl p ↦ rw p (elim m [
      | inl e ↦ inr (Member-insert b a xs (inl e))
      | inr (inl e) ↦ inl e
      | inr (inr h) ↦ inr (Member-insert b a xs (inr h))
    ])
  ]

  -- Sorting loses no element.
  pub Member-sort : (b : A) (xs : List A) → Member b xs → Member b (sort_by xs)
  unfolding sort_by
  Member-sort b [] m = m
  Member-sort b (x ∷ xs) (inl e) = Member-insert b x (sort_by xs) (inl e)
  Member-sort b (x ∷ xs) (inr m) = Member-insert b x (sort_by xs) (inr (Member-sort b xs m))

  insert-Member : (b a : A) (xs : List A) → Member b (insert_by a xs) → Member b (a ∷ xs)
  unfolding insert_by
  insert-Member b a [] m = m
  insert-Member b a (x ∷ xs) m = elim (Bool-cases (k.before (key x) (key a))) [
    | inr p ↦ subst (λ ys. Member b ys) (stay p) m
    | inl p ↦ elim (subst (λ ys. Member b ys) (into p) m) [
      | inl e ↦ inr (inl e)
      | inr h ↦ elim (insert-Member b a xs h) [ inl e ↦ inl e | inr g ↦ inr (inr g) ]
    ]
  ]
    where
      into : k.before (key x) (key a) ≡ true → insert_by a (x ∷ xs) ≡ x ∷ insert_by a xs
      into p = ground arith

      stay : k.before (key x) (key a) ≡ false → insert_by a (x ∷ xs) ≡ a ∷ x ∷ xs
      stay p = ground arith

  -- Nor does it add one.
  pub sort-Member : (b : A) (xs : List A) → Member b (sort_by xs) → Member b xs
  unfolding sort_by
  sort-Member b [] m = m
  sort-Member b (x ∷ xs) m = elim (insert-Member b x (sort_by xs) m) [
    | inl e ↦ inl e
    | inr h ↦ inr (sort-Member b xs h)
  ]

  beyond-Member :
      (q : K) (xs : List A) (b : A) → AllBeyond q xs → Member b xs → k.before q (key b) ≡ true
  beyond-Member q [] b u m = absurd m
  beyond-Member q (x ∷ xs) b u (inl e) = subst (λ y. k.before q (key y) ≡ true) e u.0
  beyond-Member q (x ∷ xs) b u (inr m) = beyond-Member q xs b u.1 m

  -- What the search finds is in the list and has the key.
  pub find_by_sound :
      (q : K) (xs : List A) (b : A) → find_by q xs ≡ some b → Member b xs × (key b ≡ q)
  unfolding find_by
  find_by_sound q [] b h = absurd (ground arith)
  find_by_sound q (x ∷ xs) b h = elim (Bool-cases (key x == q)) [
    | inl p ↦ (inl (ground arith), ground (arith, eq_iff (key x) q))
    | inr p ↦ let (m, e) = find_by_sound q xs b (ground arith) in (inr m, e)
  ]

  -- In a list with ascending keys, the search finds the element with the key.
  pub find_by-Member :
      (q : K) (xs : List A) (b : A) → IsStrict xs → Member b xs → key b ≡ q → find_by q xs ≡ some b
  unfolding find_by
  find_by-Member q [] b s m e = absurd m
  find_by-Member q (x ∷ xs) b s (inl p) e = rw p (ground (arith, eq_iff (key b) q))
  find_by-Member q (x ∷ xs) b s (inr m) e = ground (
    arith,
    eq_iff (key x) q,
    k.before_irrefl q,
    beyond-Member (key x) xs b s.0 m,
    find_by-Member q xs b s.1 m e,
  )
