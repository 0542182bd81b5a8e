-- ===== src/Session/Store/Reference.antt =====
-- src/session/repository.cpp without its index: a reference store that keeps the sessions only and looks
-- for a token by going through them.
use openproof.Base.{
  ℕ, ◌-◌, ◌≡◌, true, not, ◌||◌, Option, none, some, is_some, List, [], ◌∷◌, Text, text_key, ◌==◌,
  eq_iff, arith, if◌then◌else◌, Map, lookup, contains_key, insert, map_values, retain, IsSorted,
  lookup-Above, length,
}
use openproof.Foundation.{
  Result, ok, fail, Status, Instant, ◌>>◌, authentication_failed, already_exists, not_found,
}
use openproof.Security.{Crypto}
use openproof.Session.Model.{Session, is_expired_at, use_session, rotate_token}
use openproof.Session.Model as Model
use openproof.Session.Store.Loops.{revoke_if, count_active}
use openproof.Session.Store.Calls.{Call, adds, uses, rotates, revokes, revokes_all, purges}

-- The session with a digest.
unfoldable pub find_digest : Text → Map Text Session → Option (Text × Session)
find_digest d [] = none
find_digest d ((i, s) ∷ m) =
    let rest = find_digest d m in if s.token_digest == d then some (i, s) else rest

-- What a call returns: nothing, a session or a number.
pub data Outcome : Type 0 where
  done : Status → Outcome
  used : Result Session → Outcome
  counted : Result ℕ → Outcome

unfoldable pub add_reference : Map Text Session → Session → Map Text Session × Outcome
add_reference m s =
    if contains_key s.id m || is_some (find_digest s.token_digest m)
    then (m, done (fail already_exists))
    else (insert s.id s m, done (ok tt))

module _ ⦃crypto : Crypto⦄ where
  use_at : Map Text Session → Text → Instant → Option (Text × Session) → Map Text Session × Outcome
  use_at m token now none = (m, used (fail authentication_failed))
  use_at m token now (some (i, s)) = (
    insert i (use_session s token now).0 m,
    used ((use_session s token now).1 >> ok (use_session s token now).0),
  )

  rotate_at :
      Map Text Session
      → (id expected replacement : Text) → Instant
      → Option Session
      → Map Text Session × Outcome
  rotate_at m id expected replacement now none = (m, done (fail authentication_failed))
  rotate_at m id expected replacement now (some s) =
      if is_some (find_digest replacement m) then (m, done (fail already_exists)) else (
        insert id (rotate_token s expected replacement now).0 m,
        done ((rotate_token s expected replacement now).1),
      )

  revoke_at : Map Text Session → Text → Instant → Option Session → Map Text Session × Outcome
  revoke_at m id now none = (m, done (fail not_found))
  revoke_at m id now (some s) = (insert id (Model.revoke s now).0 m, done ((Model.revoke s now).1))

  -- One call of the reference store.
  unfoldable pub reference : Map Text Session → Call → Map Text Session × Outcome
  unfolding use_at rotate_at revoke_at
  reference m (adds s) = add_reference m s
  reference m (uses token now) = use_at m token now (find_digest token m)
  reference m (rotates id expected replacement now) =
      rotate_at m id expected replacement now (lookup id m)
  reference m (revokes id now) = revoke_at m id now (lookup id m)
  reference m (revokes_all identity now) =
      (map_values (revoke_if identity now) m, counted (ok (count_active identity m)))
  reference m (purges now) = (
    retain (λ s. not (is_expired_at s now)) m,
    counted (ok (length m - length (retain (λ s. not (is_expired_at s now)) m))),
  )

  -- The outcomes of a history.
  unfoldable pub reference_outcomes : Map Text Session → List Call → List Outcome
  reference_outcomes m [] = []
  reference_outcomes m (c ∷ calls) = (reference m c).1 ∷ reference_outcomes (reference m c).0 calls

pub find_digest-lookup :
    (d : Text) (m : Map Text Session) (i : Text) (s : Session)
    → IsSorted m
    → find_digest d m ≡ some (i, s)
    → (lookup i m ≡ some s) × (s.token_digest ≡ d)
unfolding find_digest
find_digest-lookup d [] i s o h = cc
find_digest-lookup d ((j, x) ∷ m) i s o h = ground (
  arith,
  eq_iff j i,
  eq_iff x.token_digest d,
  find_digest-lookup d m i s o.1,
  lookup-Above j m o.0,
)

pub find_digest-some :
    (m : Map Text Session) (i : Text) (s : Session)
    → lookup i m ≡ some s
    → is_some (find_digest s.token_digest m) ≡ true
unfolding find_digest
find_digest-some [] i s h = cc
find_digest-some ((j, x) ∷ m) i s h =
    ground (arith, eq_iff j i, eq_iff x.token_digest s.token_digest, find_digest-some m i s)
