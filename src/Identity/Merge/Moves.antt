-- ===== src/Identity/Merge/Moves.antt =====
-- src/identity/core/merge.cpp: the loop that moves the source's associations, over a list that is
-- right and over one that other calls have made wrong.
use openproof.Base.{
  ◌≡◌, ◌≢◌, ◌↔◌, refl, Bool, true, false, Option, none, some, List, [], ◌∷◌, Text, text_key,
  pair_key, ◌==◌, eq_iff, eq_refl, arith, if◌then◌else◌, All, All-mono, Map, lookup, lookup-insert,
  IsSorted, lookup-Above, Bool-cases, inl, inr, ◌⊎◌, ◌++◌,
}
use openproof.Foundation.{ok, fail, ErrorCode}
use openproof.Identity.Link.{ExternalIdentityRef, ExternalKey, key_of}
use openproof.Identity.Directory.{Directory, Association, reassign, identities_in, owner_in, shown}
use openproof.Identity.Merge.{World, move_all}

abbrev pub owner_at : ExternalKey → Directory → Option Text
owner_at e d = owner_in (lookup e d.owners)

-- Each reference belongs to the source, and none stands twice.
abbrev pub IsReady : Text → Map ExternalKey Association → List ExternalIdentityRef → Type 0
IsReady source m [] = Unit
IsReady source m (x ∷ xs) =
    (owner_in (lookup (key_of x) m) ≡ some source)
    × All (λ y. key_of y ≢ key_of x) xs
    × IsReady source m xs

unfoldable pub names : ExternalKey → List ExternalIdentityRef → Bool
names e [] = false
names e (x ∷ xs) = let rest = names e xs in if key_of x == e then true else rest

reassign-owner_at :
    (d : Directory) (e : ExternalKey) (source target : Text) (k : ExternalKey)
    (found : Option Association)
    → lookup e d.owners ≡ found
    → owner_in found ≡ some source
    → ((reassign d e source target).1 ≡ ok tt)
      × (owner_at k (reassign d e source target).0 ≡ (if e == k then some target else owner_at k d))
unfolding reassign
reassign-owner_at d e source target k none p h = (ground arith, ground arith)
reassign-owner_at d e source target k (some a) p h = (
  ground (arith, eq_iff a.owner source),
  ground (
    arith,
    eq_iff a.owner source,
    eq_iff e k,
    lookup-insert e k (record a { owner = target }) d.owners,
  ),
)

IsReady-step :
    (source : Text) (m m' : Map ExternalKey Association) (e : ExternalKey)
    (xs : List ExternalIdentityRef)
    → ((k : ExternalKey) → k ≢ e → owner_in (lookup k m') ≡ owner_in (lookup k m))
    → All (λ y. key_of y ≢ e) xs
    → IsReady source m xs
    → IsReady source m' xs
IsReady-step source m m' e [] same other r = tt
IsReady-step source m m' e (x ∷ xs) same other r =
    (rw (same (key_of x) other.0) r.0, r.1, IsReady-step source m m' e xs same other.1 r.2)

module _ (source target : Text) where
  -- The loop moves every association of a ready list, and only those.
  pub move_all-moves :
      (w : World) (xs : List ExternalIdentityRef) (k : ExternalKey)
      → IsReady source w.directory.owners xs
      → ((move_all source target xs w).1 ≡ ok xs)
        × ((move_all source target xs w).0.merge ≡ w.merge)
        × ((move_all source target xs w).0.identities ≡ w.identities)
        × (owner_at k (move_all source target xs w).0.directory
            ≡ (if names k xs then some target else owner_at k w.directory))
  unfolding move_all names
  move_all-moves w [] k r = (refl, refl, refl, refl)
  move_all-moves w (x ∷ xs) k r =
      let d : Directory = (reassign w.directory (key_of x) source target).0 in
      let moved =
        λ (j : ExternalKey). reassign-owner_at w.directory (key_of x) source target j _ refl r.0 in
      let ready =
        IsReady-step source w.directory.owners d.owners (key_of x) xs
          (λ j other. ground (arith, moved j, eq_iff (key_of x) j)) r.1 r.2 in
      let rest = move_all-moves (record w { directory = d }) xs k ready in
      (
        ground (arith, moved k, rest),
        ground (arith, moved k, rest),
        ground (arith, moved k, rest),
        ground (arith, moved k, rest, eq_iff (key_of x) k),
      )

  -- The loop has come as far as `done`, and to the end of the list if it succeeded.
  pub record IsPartial (w : World) (xs : List ExternalIdentityRef) (k : ExternalKey) : Type 0 where
    pub done : List ExternalIdentityRef
    pub rest : List ExternalIdentityRef
    pub split : xs ≡ done ++ rest
    pub outcome :
        (((move_all source target xs w).1 ≡ ok xs) × (rest ≡ []))
        ⊎ ((error : ErrorCode) × (x : ExternalIdentityRef) × (more : List ExternalIdentityRef)
            × ((move_all source target xs w).1 ≡ fail error)
            × (rest ≡ x ∷ more))
    pub owner :
        owner_at k (move_all source target xs w).0.directory
        ≡ (if names k done then some target else owner_at k w.directory)
    pub from_source : names k done ≡ true → owner_at k w.directory ≡ some source
    pub identities_kept : (move_all source target xs w).0.identities ≡ w.identities
    pub merge_kept : (move_all source target xs w).0.merge ≡ w.merge

-- What the directory lists of an owner is ready to be moved.
module _ (source : Text) (presentations : Map ExternalKey ExternalIdentityRef)
    (keyed : (e : ExternalKey) (p : ExternalIdentityRef)
      → lookup e presentations ≡ some p
      → key_of p ≡ e) where
  key_of-shown :
      (stored : ExternalIdentityRef) (e : ExternalKey) (found : Option ExternalIdentityRef)
      → lookup e presentations ≡ found
      → key_of stored ≡ e
      → key_of (shown stored found) ≡ e
  unfolding shown
  key_of-shown stored e none p h = h
  key_of-shown stored e (some q) p h = keyed e q p

  abbrev pub AllOwned : Map ExternalKey Association → List ExternalIdentityRef → Type 0
  AllOwned m = All (λ x. owner_in (lookup (key_of x) m) ≡ some source)

  weaken :
      (e : ExternalKey) (a : Association) (m : Map ExternalKey Association)
      → lookup e m ≡ none
      → (k : ExternalKey) → owner_in (lookup k m) ≡ some source
      → (owner_in (lookup k ((e, a) ∷ m)) ≡ some source) × (k ≢ e)
  weaken e a m absent k p = (ground (arith, eq_iff e k), λ same. ground arith)

  unfoldable pub Listed : Map ExternalKey Association → Type 0
  Listed m =
      AllOwned m (identities_in source presentations m)
      × IsReady source m (identities_in source presentations m)

  Listed-cons :
      (e : ExternalKey) (a : Association) (m : Map ExternalKey Association)
      → lookup e m ≡ none
      → key_of a.external ≡ e
      → Listed m
      → Listed ((e, a) ∷ m)
  unfolding Listed identities_in
  Listed-cons e a m absent stored (owned, ready) =
      let rest : List ExternalIdentityRef = identities_in source presentations m in
      let owned' = All-mono rest (λ x p. (weaken e a m absent (key_of x) p).0) owned in
      let others = All-mono rest (λ x p. (weaken e a m absent (key_of x) p).1) owned in
      let ready' =
        IsReady-step source m ((e, a) ∷ m) e rest (λ k other. ground (arith, eq_iff e k)) others
          ready in
      let head = key_of-shown a.external e (lookup e presentations) refl stored in
      elim (Bool-cases (a.owner == source)) [
        | inl mine ↦
            let first : owner_in
                  (lookup (key_of (shown a.external (lookup e presentations))) ((e, a) ∷ m))
                ≡ some source =
              ground (arith, head, eq_refl e, eq_iff a.owner source, mine) in
            rw mine ((first, owned'), (first, rw head others, ready'))
        | inr other ↦ rw other (owned', ready')
      ]

  pub identities_in-Listed :
      (m : Map ExternalKey Association)
      → IsSorted m
      → ((e : ExternalKey) (a : Association) → lookup e m ≡ some a → key_of a.external ≡ e)
      → Listed m
  identities_in-Listed [] s h = unfold Listed identities_in in (tt, tt)
  identities_in-Listed ((e, a) ∷ m) s h =
      Listed-cons e a m (lookup-Above e m s.0) (h e a (ground (arith, eq_refl e))) (
        identities_in-Listed m s.1
          (λ f b p. h f b (ground (arith, eq_iff e f, lookup-Above e m s.0))))

  -- The listing names exactly the keys that the source owns.
  pub names-identities_in :
      (m : Map ExternalKey Association) (k : ExternalKey)
      → IsSorted m
      → ((e : ExternalKey) (a : Association) → lookup e m ≡ some a → key_of a.external ≡ e)
      → (names k (identities_in source presentations m) ≡ true)
        ↔ (owner_in (lookup k m) ≡ some source)
  unfolding names identities_in
  names-identities_in [] k s h = ground arith
  names-identities_in ((e, a) ∷ m) k s h = ground (
    arith,
    names-identities_in m k s.1 (λ f b p. h f b (ground (arith, eq_iff e f, lookup-Above e m s.0))),
    key_of-shown a.external e (lookup e presentations) refl (h e a (ground (arith, eq_refl e))),
    eq_iff e k,
    eq_iff a.owner source,
    lookup-Above e m s.0,
  )
