-- ===== src/Identity/Directory/Ownership.antt =====
-- src/identity/core/link.cpp: the directory never hands an external identity to another owner on
-- its own, and disconnecting leaves a way to sign in.
use openproof.Base.{
  suc, ◌≤◌, ◌≡◌, refl, true, Option, none, some, List, [], ◌∷◌, Text, text_key, pair_key, eq_iff,
  eq_refl, arith, Map, lookup, insert, erase, lookup-insert, lookup-erase, IsSorted, lookup-Above,
  insert-IsSorted, erase-IsSorted, Option-cases, inl, inr, Bool-cases, Member, contains, ◌==◌, ◌&&◌,
}
use openproof.Foundation.{ok}
use openproof.Identity.Link.Progress.{
  Event, run, passes, requirement, verification, completion, run-linked, run-keeps,
}
use openproof.Identity.Link.{
  link_requested, ExternalIdentityRef, ExternalKey, key_of, IdentityLink, linked,
}
use openproof.Identity.Directory.{
  empty, Directory, Association, attach, detach, detach_if_another_authentication_method, reassign,
  count_methods, owner_in, removed,
}

-- Each entry stands under the key of the references that it holds, and keys are in order.
pub record IsKeyed (d : Directory) : Type 0 where
  pub sorted : IsSorted d.owners
  pub owners_keyed :
      (e : ExternalKey) (a : Association) → lookup e d.owners ≡ some a → key_of a.external ≡ e
  pub presentations_keyed :
      (e : ExternalKey) (p : ExternalIdentityRef) → lookup e d.presentations ≡ some p → key_of p ≡ e

insert-IsKeyed :
    (d : Directory) (a : Association)
    → IsKeyed d
    → IsKeyed (record d { owners = insert (key_of a.external) a d.owners })
insert-IsKeyed d a v = record {
  sorted = insert-IsSorted (key_of a.external) a d.owners v.sorted;
  owners_keyed =
      λ e b. rw lookup-insert (ground (arith, eq_iff (key_of a.external) e, v.owners_keyed e b));
  presentations_keyed = v.presentations_keyed;
}

present-IsKeyed :
    (d : Directory) (p : ExternalIdentityRef)
    → IsKeyed d
    → IsKeyed (record d { presentations = insert (key_of p) p d.presentations })
present-IsKeyed d p v = record {
  sorted = v.sorted;
  owners_keyed = v.owners_keyed;
  presentations_keyed =
      λ e q. rw lookup-insert (ground (arith, eq_iff (key_of p) e, v.presentations_keyed e q));
}

removed-IsKeyed : (d : Directory) (e : ExternalKey) → IsKeyed d → IsKeyed (removed d e)
unfolding removed
removed-IsKeyed d e v = record {
  sorted = erase-IsSorted e d.owners v.sorted;
  owners_keyed = λ f b. rw lookup-erase (ground (arith, eq_iff e f, v.owners_keyed f b));
  presentations_keyed =
      λ f q. rw lookup-erase (ground (arith, eq_iff e f, v.presentations_keyed f q));
}

pub empty-IsKeyed : IsKeyed empty
unfolding empty
empty-IsKeyed = record {
  sorted = tt;
  owners_keyed = λ e a h. cc;
  presentations_keyed = λ e p h. cc;
}

pub attach-IsKeyed : (d : Directory) (l : IdentityLink) → IsKeyed d → IsKeyed (attach d l).0
unfolding attach
attach-IsKeyed d l v = ground (
  arith,
  present-IsKeyed
      (record d {
        owners =
            insert (key_of l.external) (record { external = l.external; owner = l.owner }) d.owners;
      })
      l.external (insert-IsKeyed d (record { external = l.external; owner = l.owner }) v),
)

pub detach-IsKeyed :
    (d : Directory) (e : ExternalKey) (owner : Text) → IsKeyed d → IsKeyed (detach d e owner).0
unfolding detach
detach-IsKeyed d e owner v = ground (arith, removed-IsKeyed d e v)

pub reassign-IsKeyed :
    (d : Directory) (e : ExternalKey) (source target : Text)
    → IsKeyed d
    → IsKeyed (reassign d e source target).0
unfolding reassign
reassign-IsKeyed d e source target v = elim (Option-cases (lookup e d.owners)) [
  | inl p ↦ rw (p, reassign) v
  | inr (a, p) ↦
      rw (p, reassign)
        (ground (arith, v.owners_keyed e a p, insert-IsKeyed d (record a { owner = target }) v))
]

-- Attaching changes the owner of no external identity that has one.
pub attach-keeps_owner :
    (d : Directory) (l : IdentityLink) (e : ExternalKey) (a : Association)
    → lookup e d.owners ≡ some a
    → lookup e (attach d l).0.owners ≡ some a
unfolding attach
attach-keeps_owner d l e a h = ground (
  arith,
  lookup-insert (key_of l.external) e (record { external = l.external; owner = l.owner }) d.owners,
  eq_iff (key_of l.external) e,
)

attach-linked :
    (d : Directory) (l : IdentityLink) (claimed : Option Association)
    → lookup (key_of l.external) d.owners ≡ claimed
    → (attach d l).1 ≡ ok tt
    → (l.state ≡ linked)
      × (owner_in (lookup (key_of l.external) (attach d l).0.owners) ≡ some l.owner)
unfolding attach
attach-linked d l none e h = (
  ground arith,
  ground (
    arith,
    lookup-insert (key_of l.external) (key_of l.external)
        (record { external = l.external; owner = l.owner }) d.owners,
    eq_refl (key_of l.external),
  ),
)
attach-linked d l (some a) e h = (ground arith, ground (arith, eq_iff a.owner l.owner))

-- An external identity is attached to the owner of a link request only after the verification of
-- that request was required and passed and the request completed, each before its deadline.
pub attach-run :
    (d : Directory) (l : IdentityLink) (es : List Event)
    → l.state ≡ link_requested
    → (attach d (run l es)).1 ≡ ok tt
    → (passes l.expires_at (requirement ∷ verification ∷ completion ∷ []) es ≡ true)
      × (owner_in (lookup (key_of l.external) (attach d (run l es)).0.owners) ≡ some l.owner)
attach-run d l es start h =
    let (is_linked, owned) = attach-linked d (run l es) _ refl h in
    (run-linked l es start is_linked, ground (arith, run-keeps l es))

erase-absent :
    (e : ExternalKey) (m : Map ExternalKey Association) → lookup e m ≡ none → erase e m ≡ m
unfolding erase
erase-absent e [] h = refl
erase-absent e ((f, a) ∷ m) h = ground (arith, erase-absent e m)

count-erase :
    (owner : Text) (providers : List Text) (e : ExternalKey) (m : Map ExternalKey Association)
    → IsSorted m
    → count_methods owner providers m ≤ suc (count_methods owner providers (erase e m))
unfolding count_methods erase
count-erase owner providers e [] s = omega arith
count-erase owner providers e ((f, a) ∷ m) s =
    ground (
      arith,
      count-erase owner providers e m s.1,
      erase-absent e m,
      lookup-Above f m s.0,
      eq_iff f e,
    )

detached_owner :
    (d : Directory) (e : ExternalKey) (owner : Text) (providers : List Text)
    (claimed : Option Association)
    → lookup e d.owners ≡ claimed
    → (detach_if_another_authentication_method d e owner providers).1 ≡ ok tt
    → owner_in (lookup e d.owners) ≡ some owner
unfolding detach_if_another_authentication_method
detached_owner d e owner providers none p h = ground arith
detached_owner d e owner providers (some a) p h = ground (arith, eq_iff a.owner owner)

contains-Member : (a : Text) (xs : List Text) → contains a xs ≡ true → Member a xs
unfolding contains
contains-Member a [] h = absurd (ground arith)
contains-Member a (x ∷ xs) h = elim (Bool-cases (x == a)) [
  | inl p ↦ inl ((eq_iff x a).0 p)
  | inr p ↦ inr (contains-Member a xs (ground arith))
]

-- What is counted is there: an entry of the owner at one of the providers.
count_methods-counts :
    (owner : Text) (providers : List Text) (m : Map ExternalKey Association)
    → IsSorted m
    → 1 ≤ count_methods owner providers m
    → (k : ExternalKey) × (owner_in (lookup k m) ≡ some owner) × Member k.0 providers
unfolding count_methods
count_methods-counts owner providers [] s h = absurd (ground arith)
count_methods-counts owner providers ((f, a) ∷ m) s h =
    elim (Bool-cases ((a.owner == owner) && contains f.0 providers)) [
      | inl p ↦ (
        f,
        ground (arith, eq_refl f, eq_iff a.owner owner),
        contains-Member f.0 providers (ground arith),
      )
      | inr p ↦
          let (k, e, c) = count_methods-counts owner providers m s.1 (ground arith) in
          (k, ground (arith, eq_iff f k, lookup-Above f m s.0), c)
    ]

-- In a directory whose entries stand under the keys of their references, a disconnection that
-- succeeds was asked for by the owner, removes the association and leaves that owner another one,
-- whose provider is among those that authenticate.
pub detach_if_another_authentication_method-leaves_one :
    (d : Directory) (e : ExternalKey) (owner : Text) (providers : List Text)
    → IsKeyed d
    → (detach_if_another_authentication_method d e owner providers).1 ≡ ok tt
    → (owner_in (lookup e d.owners) ≡ some owner)
      × (lookup e (detach_if_another_authentication_method d e owner providers).0.owners ≡ none)
      × ((k : ExternalKey) × (owner_in
              (lookup k (detach_if_another_authentication_method d e owner providers).0.owners)
            ≡ some owner)
          × Member k.0 providers)
unfolding detach_if_another_authentication_method removed
detach_if_another_authentication_method-leaves_one d e owner providers v h =
    let owned = detached_owner d e owner providers _ refl h in
    let count = count-erase owner providers e d.owners v.sorted in
    let after : (detach_if_another_authentication_method d e owner providers).0 ≡ removed d e =
      elim (Option-cases (lookup e d.owners)) [
        | inl p ↦ absurd (ground arith)
        | inr (a, p) ↦ ground arith
      ] in
    let (k, own, within) =
      count_methods-counts owner providers (erase e d.owners) (erase-IsSorted e d.owners v.sorted)
        (elim (Option-cases (lookup e d.owners)) [
          | inl p ↦ absurd (ground arith)
          | inr (a, p) ↦ ground (arith, count)
        ]) in
    (owned, ground (arith, lookup-erase e e d.owners, eq_refl e), (k, rw after own, within))
