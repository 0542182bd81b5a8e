-- ===== src/Consent/Withdrawal.antt =====
-- src/consent: a consent covers what it was given for until it is withdrawn, and nothing after.
use openproof.Base.{
  ltb, ◌+◌, Bool, if◌then◌else◌, subst, ◌≤◌, ◌≡◌, refl, true, false, ◌&&◌, Option, none, some,
  is_some, List, [], ◌∷◌, Text, text_key, ◌==◌, eq_iff, eq_refl, arith, inl, inr, lookup, insert,
  map_values, map_option, lookup-insert, lookup-map_values, lookup-Above, IsSorted, insert-IsSorted,
  map_values-IsSorted, Option-cases, Bool-cases, all_of, contains, sort_unique,
  contains-sort_unique,
}
use openproof.Foundation.{Result, ok, fail, Instant, Duration}
use openproof.Consent.Model.{ConsentGrant, create, restore, normalize_scopes, active_at, in_time}
use openproof.Consent.Model as Model
use openproof.Consent.Repository.{
  ConsentRepository, is_for, supersede, save, first_active, find_active,
}
use openproof.Consent.Repository as Repository
use openproof.Consent.Service.{grant, covers, revoke, expiry}

-- What the search finds is stored, is for the three and is active.
first_active_sound :
    (identity client audience : Text) (now : Instant) (r : ConsentRepository) (g : ConsentGrant)
    → IsSorted r
    → first_active identity client audience now r ≡ some g
    → (k : Text) × (lookup k r ≡ some g)
      × (is_for identity client audience g ≡ true)
      × (active_at g now ≡ true)
unfolding first_active
first_active_sound identity client audience now [] g s h = absurd (ground arith)
first_active_sound identity client audience now ((i, x) ∷ r) g s h =
    elim (Bool-cases (is_for identity client audience x && active_at x now)) [
      | inl p ↦ (i, ground (arith, eq_refl i), ground arith, ground arith)
      | inr p ↦
          let (k, e, f, a) =
            first_active_sound identity client audience now r g s.1 (ground arith) in
          (k, ground (arith, eq_iff i k, lookup-Above i r s.0), f, a)
    ]

first_active-is_some :
    (identity client audience : Text) (now : Instant) (r : ConsentRepository) (k : Text)
    (g : ConsentGrant)
    → lookup k r ≡ some g
    → is_for identity client audience g ≡ true
    → active_at g now ≡ true
    → is_some (first_active identity client audience now r) ≡ true
unfolding first_active
first_active-is_some identity client audience now [] k g h f a = absurd (ground arith)
first_active-is_some identity client audience now ((i, x) ∷ r) k g h f a =
    ground (arith, eq_iff i k, first_active-is_some identity client audience now r k g)

-- A grant that was superseded is not active from then on.
supersede-inactive :
    (g value : ConsentGrant) (now : Instant)
    → is_for g.identity g.client g.audience value ≡ true
    → g.granted_at ≤ now
    → active_at (supersede g value) now ≡ false
unfolding supersede active_at Model.revoke
supersede-inactive g value now f l = ground arith

supersede-is_for :
    (identity client audience : Text) (g value : ConsentGrant)
    → is_for identity client audience (supersede g value) ≡ is_for identity client audience value
unfolding supersede is_for Model.revoke
supersede-is_for identity client audience g value = ground arith

-- What a grant that was given and saved is.
grant_sound :
    (r : ConsentRepository) (identity client audience : Text) (scopes : List Text)
    (lifetime : Option Duration) (random : Result Text) (t : Instant) {g : ConsentGrant}
    → (grant identity client audience scopes lifetime random t r).1 ≡ ok g
    → (is_for identity client audience g ≡ true)
      × (g.identity ≡ identity)
      × (g.client ≡ client)
      × (g.audience ≡ audience)
      × (g.granted_at ≡ t)
      × (g.expires_at ≡ expiry t lifetime)
      × (is_some g.revoked_at ≡ false)
      × (g.scopes ≡ sort_unique scopes)
      × ((grant identity client audience scopes lifetime random t r).0 ≡ (save r g).0)
unfolding grant create restore normalize_scopes is_for
grant_sound r identity client audience scopes lifetime (fail e) t {g} h = absurd (ground arith)
grant_sound r identity client audience scopes lifetime (ok fresh) t {g} h =
    ground (arith, eq_refl identity, eq_refl client, eq_refl audience)

-- Whatever is stored for the three is not active from the moment on, except under the key.
unfoldable Silent : (identity client audience : Text) → Instant → Text → ConsentRepository → Type 0
Silent identity client audience t key r =
    (k : Text) (g : ConsentGrant) (now : Instant)
    → lookup k r ≡ some g
    → (k == key) ≡ false
    → is_for identity client audience g ≡ true
    → t ≤ now
    → active_at g now ≡ false

lookup-save :
    (r : ConsentRepository) (g : ConsentGrant) (k : Text)
    → lookup k (save r g).0 ≡ (if g.id == k then some g else map_option (supersede g) (lookup k r))
unfolding save
lookup-save r g k = ground (
  arith,
  lookup-insert g.id k g (map_values (supersede g) r),
  lookup-map_values (supersede g) k r,
)

save-Silent :
    (r : ConsentRepository) (identity client audience : Text) (g : ConsentGrant)
    → is_for identity client audience g ≡ true
    → Silent identity client audience g.granted_at g.id (save r g).0
unfolding Silent is_for
save-Silent r identity client audience g f_g k x now h other f l =
    elim (Option-cases (lookup k r)) [
      | inl p ↦ absurd (ground (arith, eq_iff k g.id, eq_iff g.id k, lookup-save r g k))
      | inr (old, p) ↦
          let same : supersede g old ≡ x =
            ground (arith, eq_iff k g.id, eq_iff g.id k, lookup-save r g k) in
          let for_old = supersede-is_for identity client audience g old in
          let for_g = supersede-is_for g.identity g.client g.audience g old in
          subst (λ y. active_at y now ≡ false) same
            (supersede-inactive g old now
              (ground (
                arith,
                eq_iff g.identity identity,
                eq_iff g.client client,
                eq_iff g.audience audience,
              ))
              l)
    ]

-- So the search finds what is under the key, or nothing.
first_active-Silent :
    (r : ConsentRepository) (identity client audience key : Text) (t now : Instant)
    (g : ConsentGrant)
    → IsSorted r
    → Silent identity client audience t key r
    → lookup key r ≡ some g
    → is_for identity client audience g ≡ true
    → t ≤ now
    → first_active identity client audience now r ≡ (if active_at g now then some g else none)
unfolding Silent
first_active-Silent r identity client audience key t now g sorted silent h f l =
    elim (Option-cases (first_active identity client audience now r)) [
      | inl p ↦ ground (arith, first_active-is_some identity client audience now r key g h f)
      | inr (x, p) ↦
          let (k, e, f', a) = first_active_sound identity client audience now r x sorted p in
          elim (Bool-cases (k == key)) [
            | inl same ↦ ground (arith, (eq_iff k key).0 same)
            | inr other ↦ absurd (ground (arith, silent k x now e other f' l))
          ]
    ]

save-IsSorted : (r : ConsentRepository) (g : ConsentGrant) → IsSorted r → IsSorted (save r g).0
unfolding save
save-IsSorted r g s =
    insert-IsSorted g.id g (map_values (supersede g) r) (map_values-IsSorted (supersede g) r s)

Silent-insert :
    (r : ConsentRepository) (identity client audience key : Text) (t : Instant) (g : ConsentGrant)
    → Silent identity client audience t key r
    → Silent identity client audience t key (insert key g r)
unfolding Silent
Silent-insert r identity client audience key t g silent k x now h other f l =
    silent k x now (ground (arith, lookup-insert key k g r, eq_iff key k, eq_iff k key)) other f l

grant-Silent :
    (r : ConsentRepository) (identity client audience : Text) (scopes : List Text)
    (lifetime : Option Duration) (random : Result Text) (t : Instant) {g : ConsentGrant}
    → (grant identity client audience scopes lifetime random t r).1 ≡ ok g
    → Silent identity client audience t g.id (save r g).0
grant-Silent r identity client audience scopes lifetime random t {g} h =
    let sound = grant_sound r identity client audience scopes lifetime random t h in
    subst (λ at. Silent identity client audience at g.id (save r g).0) sound.4
      (save-Silent r identity client audience g sound.0)

contains_all-sort_unique :
    (scopes wanted : List Text)
    → all_of (λ scope. contains scope (sort_unique scopes)) wanted
      ≡ all_of (λ scope. contains scope scopes) wanted
unfolding all_of
contains_all-sort_unique scopes [] = refl
contains_all-sort_unique scopes (w ∷ wanted) =
    rw (contains-sort_unique w scopes, contains_all-sort_unique scopes wanted) refl

-- A consent that was given answers for its three alone: until its lifetime ends it covers exactly
-- the scopes that were asked for, afterwards nothing, whatever was granted to the three before.
pub covers-grant :
    (r : ConsentRepository) (identity client audience : Text) (scopes wanted : List Text)
    (lifetime : Option Duration) (random : Result Text) (t now : Instant) {g : ConsentGrant}
    → IsSorted r
    → (grant identity client audience scopes lifetime random t r).1 ≡ ok g
    → t ≤ now
    → covers
        (grant identity client audience scopes lifetime random t r).0
        identity
        client
        audience
        wanted
        now
      ≡ ok (
          elim lifetime as (λ _. Bool) [ none ↦ true | some lasting ↦ ltb now (t + lasting) ]
          && all_of (λ scope. contains scope scopes) wanted)
unfolding covers find_active active_at Model.covers in_time expiry
covers-grant r identity client audience scopes wanted lifetime random t now {g} sorted h l =
    let sound = grant_sound r identity client audience scopes lifetime random t h in
    let found =
      first_active-Silent (save r g).0 identity client audience g.id t now g
        (save-IsSorted r g sorted)
        (grant-Silent r identity client audience scopes lifetime random t h)
        (ground (arith, lookup-save r g g.id, eq_refl g.id)) sound.0 l in
    elim (Option-cases lifetime) [
      | inl e ↦ ground (arith, found, sound, contains_all-sort_unique scopes wanted)
      | inr (lasting, e) ↦ ground (arith, found, sound, contains_all-sort_unique scopes wanted)
    ]

revoke_sound :
    (r : ConsentRepository) (g : ConsentGrant) (identity : Text) (now : Instant)
    → lookup g.id r ≡ some g
    → (revoke g.id identity now r).1 ≡ ok tt
    → (revoke g.id identity now r).0 ≡ insert g.id (Model.revoke g now) r
unfolding revoke Repository.revoke
revoke_sound r g identity now h done = ground arith

is_for-revoke :
    (identity client audience : Text) (g : ConsentGrant) (now : Instant)
    → is_for identity client audience (Model.revoke g now) ≡ is_for identity client audience g
unfolding is_for Model.revoke
is_for-revoke identity client audience g now = ground arith

revoke-inactive :
    (g : ConsentGrant) (withdrawn now : Instant) → active_at (Model.revoke g withdrawn) now ≡ false
unfolding active_at Model.revoke
revoke-inactive g withdrawn now = ground arith

-- A consent that was given and then withdrawn covers nothing from then on, not by an older consent
-- to the same three either.
pub covers-revoke :
    (r : ConsentRepository) (identity client audience : Text) (scopes wanted : List Text)
    (lifetime : Option Duration) (random : Result Text) (t withdrawn now : Instant)
    {g : ConsentGrant}
    → IsSorted r
    → (grant identity client audience scopes lifetime random t r).1 ≡ ok g
    → (revoke g.id identity withdrawn
        (grant identity client audience scopes lifetime random t r).0).1
      ≡ ok tt
    → t ≤ now
    → covers
        (revoke g.id identity withdrawn
          (grant identity client audience scopes lifetime random t r).0).0
        identity
        client
        audience
        wanted
        now
      ≡ ok false
unfolding covers find_active
covers-revoke r identity client audience scopes wanted lifetime random t withdrawn now {g} sorted h
      done l =
    let sound = grant_sound r identity client audience scopes lifetime random t h in
    let stored : lookup g.id (save r g).0 ≡ some g =
      ground (arith, lookup-save r g g.id, eq_refl g.id) in
    let after =
      revoke_sound (save r g).0 g identity withdrawn stored
        (subst (λ s. (revoke g.id identity withdrawn s).1 ≡ ok tt) sound.8 done) in
    let found =
      first_active-Silent (insert g.id (Model.revoke g withdrawn) (save r g).0) identity client
        audience g.id t now (Model.revoke g withdrawn)
        (insert-IsSorted g.id (Model.revoke g withdrawn) (save r g).0 (save-IsSorted r g sorted))
        (Silent-insert (save r g).0 identity client audience g.id t (Model.revoke g withdrawn)
          (grant-Silent r identity client audience scopes lifetime random t h))
        (ground
          (arith, lookup-insert g.id g.id (Model.revoke g withdrawn) (save r g).0, eq_refl g.id))
        (ground (arith, sound.0, is_for-revoke identity client audience g withdrawn)) l in
    rw (sound.8, after, found, revoke-inactive g withdrawn now) refl
