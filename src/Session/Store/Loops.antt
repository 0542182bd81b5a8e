-- ===== src/Session/Store/Loops.antt =====
-- src/session/repository.cpp: the loops of `revokeAll` and `purgeExpired`, entry by entry.
use openproof.Base.{
  ℕ, ◌+◌, ◌≡◌, refl, true, not, ◌&&◌, some, none, Option, [], ◌∷◌, Text, text_key, ◌==◌, eq_iff,
  arith, Map, lookup, erase, lookup-erase, erase-IsSorted, lookup-Above, map_values, retain,
  IsSorted, if◌then◌else◌, is_some, length,
}
use openproof.Foundation.{Instant, ok}
use openproof.Session.Model.{
  Session, SessionState, active, revoked, expired, is_active, is_expired_at,
}
use openproof.Session.Model as Model
use openproof.Session.Store.{revoke_each, purge_each}

-- What the loop of `revokeAll` does to one session.
unfoldable pub revoke_if : Text → Instant → Session → Session
revoke_if identity now s =
    if (s.identity == identity) && is_active s.state
    then record s { state = revoked; revoked_at = some now }
    else s

pub count_active : Text → Map Text Session → ℕ
count_active identity [] = 0
count_active identity ((i, s) ∷ m) =
    let rest = count_active identity m in
    if (s.identity == identity) && is_active s.state then rest + 1 else rest

pub revoke_each-map_values :
    (identity : Text) (now : Instant) (m : Map Text Session)
    → revoke_each identity now m
      ≡ (map_values (revoke_if identity now) m, ok (count_active identity m))
unfolding revoke_each map_values revoke_if count_active Model.revoke
revoke_each-map_values identity now [] = refl
revoke_each-map_values identity now ((i, s) ∷ m) =
    ground (arith, revoke_each-map_values identity now m)

pub revoke_if-keeps :
    (identity : Text) (now : Instant) (s : Session)
    → ((revoke_if identity now s).id ≡ s.id)
      × ((revoke_if identity now s).token_digest ≡ s.token_digest)
unfolding revoke_if
revoke_if-keeps identity now s = (ground arith, ground arith)

pub purge_each-retain :
    (now : Instant) (m : Map Text Session) (t : Map Text Text)
    → (purge_each now m t).0 ≡ retain (λ s. not (is_expired_at s now)) m
unfolding purge_each retain
purge_each-retain now [] t = refl
purge_each-retain now ((i, s) ∷ m) t =
    ground (arith, purge_each-retain now m t, purge_each-retain now m (erase s.token_digest t))

-- The first expired session with a digest.
pub find_expired : Instant → Text → Map Text Session → Option (Text × Session)
find_expired now d [] = none
find_expired now d ((i, s) ∷ m) =
    let rest = find_expired now d m in
    if is_expired_at s now && (s.token_digest == d) then some (i, s) else rest

pub purge_each-lookup :
    (now : Instant) (d : Text) (m : Map Text Session) (t : Map Text Text)
    → lookup d (purge_each now m t).1
      ≡ (if is_some (find_expired now d m) then none else lookup d t)
unfolding purge_each find_expired
purge_each-lookup now d [] t = refl
purge_each-lookup now d ((i, s) ∷ m) t = ground (
  arith,
  lookup-erase s.token_digest d t,
  purge_each-lookup now d m t,
  purge_each-lookup now d m (erase s.token_digest t),
)

pub find_expired-lookup :
    (now : Instant) (d : Text) (m : Map Text Session) (j : Text) (u : Session)
    → IsSorted m
    → find_expired now d m ≡ some (j, u)
    → (lookup j m ≡ some u) × (is_expired_at u now ≡ true) × (u.token_digest ≡ d)
unfolding find_expired
find_expired-lookup now d [] j u s h = cc
find_expired-lookup now d ((i, x) ∷ m) j u s h = ground (
  arith,
  eq_iff i j,
  eq_iff x.token_digest d,
  find_expired-lookup now d m j u s.1,
  lookup-Above i m s.0,
)

pub find_expired-some :
    (now : Instant) (m : Map Text Session) (j : Text) (u : Session)
    → lookup j m ≡ some u
    → is_expired_at u now ≡ true
    → is_some (find_expired now u.token_digest m) ≡ true
unfolding find_expired
find_expired-some now [] j u h e = cc
find_expired-some now ((i, x) ∷ m) j u h e =
    ground (arith, eq_iff i j, eq_iff x.token_digest u.token_digest, find_expired-some now m j u)

pub purge_each-IsSorted :
    (now : Instant) (m : Map Text Session) (t : Map Text Text)
    → IsSorted t
    → IsSorted (purge_each now m t).1
unfolding purge_each
purge_each-IsSorted now [] t s = s
purge_each-IsSorted now ((i, x) ∷ m) t s = ground (
  arith,
  purge_each-IsSorted now m t s,
  purge_each-IsSorted now m (erase x.token_digest t),
  erase-IsSorted x.token_digest t s,
)

-- A purge counts what it removes: the count and the sessions that stay make up the sessions that
-- were there.
pub purge_each-length :
    (now : Instant) (m : Map Text Session) (t : Map Text Text)
    → (purge_each now m t).2 + length (purge_each now m t).0 ≡ length m
unfolding purge_each
purge_each-length now [] t = refl
purge_each-length now ((i, s) ∷ m) t =
    ground (arith, purge_each-length now m t, purge_each-length now m (erase s.token_digest t))
