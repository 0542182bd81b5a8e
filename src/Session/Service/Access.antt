-- ===== src/Session/Service/Access.antt =====
-- src/session/service.cpp: who is let in by a token, what a listing shows, and whose sessions an
-- identity can revoke.
use openproof.Base.{
  ◌≤◌, ◌≡◌, ◌≢◌, ◌⊎◌, refl, true, false, not, ◌||◌, some, none, Option, List, [], ◌∷◌, Text,
  text_key, eq_iff, arith, All, keep_if, Map, lookup, inl, inr,
}
use openproof.Foundation.{Instant, Result, ok, fail, not_found, Result-cases}
use openproof.Security.{Crypto}
use openproof.Session.Model.{Session, active, is_active, is_expired_at}
use openproof.Session.Delegated.{DelegatedAccess, permits}
use openproof.Session.Store.{SessionRepository, values_of}
use openproof.Session.Store as Store
use openproof.Session.Service.Listing.{list, revoke_owned, sort_by_last_seen, insert_by_last_seen}
use openproof.Session.Service.{SessionService, authenticate, authenticate_delegated}

module _ ⦃crypto : Crypto⦄ (service : SessionService) where
  -- A token that is let in is a first-party token, or else one to which the authenticator of
  -- delegated tokens gave access, bound to no sender and with the required scope.
  pub authenticate_delegated_sound :
      (token : Text) (delegated : Option (Text → Result DelegatedAccess)) (scope : Text)
      (now : Instant) (r : SessionRepository) {s : Session}
      → (authenticate_delegated service token delegated scope now r).1 ≡ ok s
      → ((authenticate service token now r).1 ≡ ok s)
        ⊎ ((authenticator : Text → Result DelegatedAccess) × (access : DelegatedAccess) × (delegated
              ≡ some authenticator)
            × (authenticator token ≡ ok access)
            × (access.sender_constraint ≡ none)
            × (permits access scope ≡ true)
            × (access.authenticated ≡ s))
  unfolding authenticate_delegated
  authenticate_delegated_sound token none scope now r h = inl (ground arith)
  authenticate_delegated_sound token (some f) scope now r h =
      elim (Result-cases (authenticate service token now r).1) [
        | inl (u, p) ↦ inl (ground arith)
        | inr (e, p) ↦ elim (Result-cases (f token)) [
          | inr (e', q) ↦ absurd (ground arith)
          | inl (access, q) ↦ inr (f, access, refl, q, ground arith, ground arith, ground arith)
        ]
      ]

-- The latest use first.
abbrev pub NoneLater : Session → List Session → Type 0
NoneLater s = All (λ x. x.last_seen_at ≤ s.last_seen_at)

abbrev pub IsLatestFirst : List Session → Type 0
IsLatestFirst [] = Unit
IsLatestFirst (s ∷ xs) = NoneLater s xs × IsLatestFirst xs

-- A session that a listing may show.
pub record IsShown (identity : Text) (now : Instant) (s : Session) : Type 0 where
  pub is_own : s.identity ≡ identity
  pub is_live : s.state ≡ active
  pub is_current : is_expired_at s now ≡ false

NoneLater-trans :
    (s x : Session) (xs : List Session)
    → x.last_seen_at ≤ s.last_seen_at
    → NoneLater x xs
    → NoneLater s xs
NoneLater-trans s x [] h n = tt
NoneLater-trans s x (y ∷ ys) h n = (omega (arith, n.0), NoneLater-trans s x ys h n.1)

NoneLater-insert :
    (b s : Session) (xs : List Session)
    → s.last_seen_at ≤ b.last_seen_at
    → NoneLater b xs
    → NoneLater b (insert_by_last_seen s xs)
unfolding insert_by_last_seen
NoneLater-insert b s [] h n = (h, tt)
NoneLater-insert b s (x ∷ xs) h n = ground (arith, NoneLater-insert b s xs h n.1)

insert-IsLatestFirst :
    (s : Session) (xs : List Session) → IsLatestFirst xs → IsLatestFirst (insert_by_last_seen s xs)
unfolding insert_by_last_seen
insert-IsLatestFirst s [] o = (tt, tt)
insert-IsLatestFirst s (x ∷ xs) o =
    ground (arith, NoneLater-insert x s xs, NoneLater-trans s x xs, insert-IsLatestFirst s xs o.1)

sort-IsLatestFirst : (xs : List Session) → IsLatestFirst (sort_by_last_seen xs)
unfolding sort_by_last_seen
sort-IsLatestFirst [] = tt
sort-IsLatestFirst (s ∷ xs) = insert-IsLatestFirst s (sort_by_last_seen xs) (sort-IsLatestFirst xs)

module _ (P : Session → Type 0) where
  All-insert : (s : Session) (xs : List Session) → P s → All P xs → All P (insert_by_last_seen s xs)
  unfolding insert_by_last_seen
  All-insert s [] p a = (p, tt)
  All-insert s (x ∷ xs) p a = ground (arith, All-insert s xs p a.1)

  All-sort : (xs : List Session) → All P xs → All P (sort_by_last_seen xs)
  unfolding sort_by_last_seen
  All-sort [] a = tt
  All-sort (s ∷ xs) a = All-insert s (sort_by_last_seen xs) a.0 (All-sort xs a.1)

kept-IsShown :
    (identity : Text) (now : Instant) (m : Map Text Session)
    → All
        (IsShown identity now)
        (keep_if (λ s. not (not (is_active s.state) || is_expired_at s now)) (values_of identity m))
unfolding keep_if values_of
kept-IsShown identity now [] = tt
kept-IsShown identity now ((i, s) ∷ m) =
    ground (arith, eq_iff s.identity identity, kept-IsShown identity now m)

-- A listing succeeds and changes nothing; it shows active sessions of the identity alone that have
-- not expired, the latest used first.
pub list-IsShown :
    (identity : Text) (now : Instant) (r : SessionRepository)
    → (xs : List Session) × (list identity now r ≡ (r, ok xs))
      × All (IsShown identity now) xs
      × IsLatestFirst xs
unfolding list Store.list
list-IsShown identity now r =
    let shown : List Session =
      keep_if (λ s. not (not (is_active s.state) || is_expired_at s now))
        (values_of identity r.sessions) in
    (
      sort_by_last_seen shown,
      refl,
      All-sort (IsShown identity now) shown (kept-IsShown identity now r.sessions),
      sort-IsLatestFirst shown,
    )

-- To revoke a session that belongs to another identity is refused as if there were no such
-- session, and changes nothing.
pub revoke_owned-other :
    (identity id : Text) (now : Instant) (r : SessionRepository) (s : Session)
    → lookup id r.sessions ≡ some s
    → s.identity ≢ identity
    → revoke_owned identity id now r ≡ (r, fail not_found)
unfolding revoke_owned Store.find
revoke_owned-other identity id now r s e other = ground (arith, eq_iff s.identity identity)
