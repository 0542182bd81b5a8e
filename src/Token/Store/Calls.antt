-- ===== src/Token/Store/Calls.antt =====
-- src/token/repository.cpp: histories of calls, and what no call undoes.
use openproof.Base.{
  ◌≡◌, refl, Bool, true, false, not, ◌&&◌, Option, none, some, List, [], ◌∷◌, Text, text_key, ◌==◌,
  eq_iff, arith, lookup, insert, lookup-insert, lookup-map_values,
}
use openproof.Foundation.{Instant}
use openproof.Foundation.Encoding.{to_hex}
use openproof.Token.Model.{
  AccessTokenRecord, RefreshTokenRecord, is_refresh_active, refresh_usable_at, revoke_refresh,
  mark_used,
}
use openproof.Token.Store.{
  TokenRepository, store_initial, store_access_only, rotate_refresh, revoke_family, revoke_token,
  revoke_refresh_of,
}

pub data Call : Type 0 where
  stores : AccessTokenRecord → RefreshTokenRecord → Call
  stores_access : AccessTokenRecord → Call
  rotates : Text → Instant → AccessTokenRecord → RefreshTokenRecord → Call
  revokes_family : Text → Instant → Call
  revokes : Text → Instant → Call

unfoldable pub step : TokenRepository → Call → TokenRepository
step r (stores a t) = (store_initial r a t).0
step r (stores_access a) = (store_access_only r a).0
step r (rotates d now a t) = (rotate_refresh r d now a t).0
step r (revokes_family f now) = revoke_family r f now
step r (revokes d now) = revoke_token r d now

unfoldable pub run : TokenRepository → List Call → TokenRepository
run r [] = r
run r (c ∷ cs) = run (step r c) cs

-- The entry is a record of the family that is used or revoked.
abbrev pub is_spent : Text → Option RefreshTokenRecord → Bool
is_spent f none = false
is_spent f (some t) = not (is_refresh_active t.state) && (t.family == f)

-- The refresh token is known, of the family, and no longer active.
abbrev pub IsSpent : Text → Text → TokenRepository → Type 0
IsSpent k f r = is_spent f (lookup k r.refresh) ≡ true

pub revoke_family-IsSpent :
    (r : TokenRepository) (k f g : Text) (now : Instant)
    → IsSpent k f r
    → IsSpent k f (revoke_family r g now)
unfolding revoke_family revoke_refresh_of revoke_refresh
revoke_family-IsSpent r k f g now h =
    ground (arith, lookup-map_values (revoke_refresh_of g now) k r.refresh)

store_initial-IsSpent :
    (r : TokenRepository) (k f : Text) (a : AccessTokenRecord) (t : RefreshTokenRecord)
    → IsSpent k f r
    → IsSpent k f (store_initial r a t).0
unfolding store_initial
store_initial-IsSpent r k f a t h =
    ground (arith, lookup-insert (to_hex t.digest) k t r.refresh, eq_iff (to_hex t.digest) k)

store_access_only-IsSpent :
    (r : TokenRepository) (k f : Text) (a : AccessTokenRecord)
    → IsSpent k f r
    → IsSpent k f (store_access_only r a).0
unfolding store_access_only
store_access_only-IsSpent r k f a h = ground arith

rotate_refresh-IsSpent :
    (r : TokenRepository) (k f d : Text) (now : Instant) (a : AccessTokenRecord)
    (t : RefreshTokenRecord) (found : Option RefreshTokenRecord)
    → lookup (to_hex d) r.refresh ≡ found
    → IsSpent k f r
    → IsSpent k f (rotate_refresh r d now a t).0
unfolding rotate_refresh mark_used refresh_usable_at
rotate_refresh-IsSpent r k f d now a t none e h = ground arith
rotate_refresh-IsSpent r k f d now a t (some u) e h = ground (
  arith,
  revoke_family-IsSpent r k f u.family now h,
  lookup-insert (to_hex t.digest) k t (insert (to_hex d) (mark_used now u) r.refresh),
  lookup-insert (to_hex d) k (mark_used now u) r.refresh,
  eq_iff (to_hex t.digest) k,
  eq_iff (to_hex d) k,
)

revoke_token-IsSpent :
    (r : TokenRepository) (k f d : Text) (now : Instant) (found : Option AccessTokenRecord)
    (known : Option RefreshTokenRecord)
    → lookup (to_hex d) r.access ≡ found
    → lookup (to_hex d) r.refresh ≡ known
    → IsSpent k f r
    → IsSpent k f (revoke_token r d now)
unfolding revoke_token
revoke_token-IsSpent r k f d now (some a) known e g h = ground arith
revoke_token-IsSpent r k f d now none none e g h = ground arith
revoke_token-IsSpent r k f d now none (some u) e g h =
    ground (arith, revoke_family-IsSpent r k f u.family now h)

step-IsSpent :
    (r : TokenRepository) (k f : Text) (c : Call) → IsSpent k f r → IsSpent k f (step r c)
unfolding step
step-IsSpent r k f (stores a t) h = store_initial-IsSpent r k f a t h
step-IsSpent r k f (stores_access a) h = store_access_only-IsSpent r k f a h
step-IsSpent r k f (rotates d now a t) h = rotate_refresh-IsSpent r k f d now a t _ refl h
step-IsSpent r k f (revokes_family g now) h = revoke_family-IsSpent r k f g now h
step-IsSpent r k f (revokes d now) h = revoke_token-IsSpent r k f d now _ _ refl refl h

-- A refresh token that is used or revoked stays known, in its family, and inactive.
pub run-IsSpent :
    (r : TokenRepository) (k f : Text) (cs : List Call) → IsSpent k f r → IsSpent k f (run r cs)
unfolding run
run-IsSpent r k f [] h = h
run-IsSpent r k f (c ∷ cs) h = run-IsSpent (step r c) k f cs (step-IsSpent r k f c h)
