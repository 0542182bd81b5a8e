-- ===== src/Token/Store/Reuse.antt =====
-- src/token/repository.cpp: `rotateRefresh` at a token that is not usable, the reuse of one that
-- was rotated included.
use openproof.Base.{
  ◌≡◌, refl, false, Option, none, some, List, Text, text_key, eq_iff, eq_refl, arith, lookup,
  insert, lookup-insert,
}
use openproof.Foundation.{ok, fail, Instant, authentication_failed}
use openproof.Foundation.Encoding.{to_hex}
use openproof.Token.Model.{AccessTokenRecord, RefreshTokenRecord, refresh_usable_at, mark_used}
use openproof.Token.Store.{TokenRepository, rotate_refresh, revoke_family}
use openproof.Token.Store.Calls.{Call, run, IsSpent, run-IsSpent}
use openproof.Token.Store.Families.{IsDead, StoresNone, revoke_family-IsDead, run-IsDead}

-- A token that is spent or expired revokes its family.
pub rotate_refresh-unusable :
    (r : TokenRepository) (d : Text) (now : Instant) (a : AccessTokenRecord)
    (t found : RefreshTokenRecord)
    → lookup (to_hex d) r.refresh ≡ some found
    → refresh_usable_at found now ≡ false
    → rotate_refresh r d now a t ≡ (revoke_family r found.family now, fail authentication_failed)
unfolding rotate_refresh
rotate_refresh-unusable r d now a t found e u = ground arith

-- A family that a reuse or an expired token has revoked stays dead: after an attempt to rotate a
-- token that is not usable any more, no token of its family, access or refresh, is active at any
-- later point of a history, so long as no grant is stored anew under the family.
pub run-rotate_refresh_unusable :
    (r : TokenRepository) (d : Text) (now : Instant) (a : AccessTokenRecord)
    (t found : RefreshTokenRecord) (cs : List Call)
    → lookup (to_hex d) r.refresh ≡ some found
    → refresh_usable_at found now ≡ false
    → StoresNone found.family cs
    → IsDead found.family (run (rotate_refresh r d now a t).0 cs)
run-rotate_refresh_unusable r d now a t found cs e u n =
    rw (rotate_refresh-unusable r d now a t found e u) (
      run-IsDead (revoke_family r found.family now) found.family cs n
        (revoke_family-IsDead r found.family now))

rotate_refresh-found :
    (r : TokenRepository) (d : Text) (now : Instant) (a : AccessTokenRecord)
    (t : RefreshTokenRecord) (found : Option RefreshTokenRecord)
    → lookup (to_hex d) r.refresh ≡ found
    → (rotate_refresh r d now a t).1 ≡ ok tt
    → IsSpent (to_hex d) t.family (rotate_refresh r d now a t).0
unfolding rotate_refresh mark_used refresh_usable_at
rotate_refresh-found r d now a t none e h = ground arith
rotate_refresh-found r d now a t (some u) e h = ground (
  arith,
  lookup-insert (to_hex t.digest) (to_hex d) t (insert (to_hex d) (mark_used now u) r.refresh),
  lookup-insert (to_hex d) (to_hex d) (mark_used now u) r.refresh,
  eq_refl (to_hex d),
  eq_iff (to_hex t.digest) (to_hex d),
  eq_iff t.family u.family,
)

spent-replay :
    (r : TokenRepository) (d f : Text) (now : Instant) (a : AccessTokenRecord)
    (t : RefreshTokenRecord) (found : Option RefreshTokenRecord)
    → lookup (to_hex d) r.refresh ≡ found
    → IsSpent (to_hex d) f r
    → rotate_refresh r d now a t ≡ (revoke_family r f now, fail authentication_failed)
unfolding refresh_usable_at
spent-replay r d f now a t none e h = ground arith
spent-replay r d f now a t (some u) e h =
    ground (arith, eq_iff u.family f, rotate_refresh-unusable r d now a t u e)

-- A refresh token rotates once. After a rotation that succeeded, and whatever calls come between,
-- presenting the same token again is refused as a failed authentication, and leaves no active
-- token, access or refresh, in the family of the replacement.
pub rotate_refresh-replay :
    (r : TokenRepository) (d : Text) (now later : Instant) (a a' : AccessTokenRecord)
    (t t' : RefreshTokenRecord) (cs : List Call)
    → (rotate_refresh r d now a t).1 ≡ ok tt
    → ((rotate_refresh (run (rotate_refresh r d now a t).0 cs) d later a' t').1
        ≡ fail authentication_failed)
      × IsDead t.family (rotate_refresh (run (rotate_refresh r d now a t).0 cs) d later a' t').0
rotate_refresh-replay r d now later a a' t t' cs h =
    let r' : TokenRepository = run (rotate_refresh r d now a t).0 cs in
    let spent : IsSpent (to_hex d) t.family r' =
      run-IsSpent (rotate_refresh r d now a t).0 (to_hex d) t.family cs
        (rotate_refresh-found r d now a t _ refl h) in
    rw (spent-replay r' d t.family later a' t' _ refl spent)
      (refl, revoke_family-IsDead r' t.family later)
