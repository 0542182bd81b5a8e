-- ===== src/Token/Store/Families.antt =====
-- src/token/repository.cpp: the tokens of a revoked family stay out of use.
use openproof.Base.{
  ◌≡◌, ◌≢◌, refl, Bool, false, ◌&&◌, Option, none, some, List, [], ◌∷◌, Text, text_key, ◌==◌,
  eq_iff, arith, All, Map, lookup, insert, lookup-insert, lookup-map_values,
}
use openproof.Foundation.{Instant}
use openproof.Foundation.Encoding.{to_hex}
use openproof.Token.Model.{
  AccessTokenRecord, RefreshTokenRecord, is_access_active, is_refresh_active, refresh_usable_at,
  revoke_access, revoke_refresh, mark_used,
}
use openproof.Token.Store.{
  TokenRepository, store_initial, store_access_only, rotate_refresh, revoke_family, revoke_token,
  revoke_access_of, revoke_refresh_of,
}
use openproof.Token.Store.Calls.{
  Call, stores, stores_access, rotates, revokes_family, revokes, step, run,
}

abbrev pub access_in : Text → Option AccessTokenRecord → Bool
access_in f none = false
access_in f (some a) = is_access_active a.state && (a.family == f)

abbrev pub refresh_in : Text → Option RefreshTokenRecord → Bool
refresh_in f none = false
refresh_in f (some t) = is_refresh_active t.state && (t.family == f)

-- No token of the family is active, access or refresh.
abbrev pub IsDead : Text → TokenRepository → Type 0
IsDead f r =
    ((k : Text) → access_in f (lookup k r.access) ≡ false)
    × ((k : Text) → refresh_in f (lookup k r.refresh) ≡ false)

abbrev pub IsStore : Text → Call → Type 0
IsStore f (stores a t) = (a.family ≢ f) × (t.family ≢ f)
IsStore f (stores_access a) = a.family ≢ f
IsStore f (rotates d now a t) = Unit
IsStore f (revokes_family g now) = Unit
IsStore f (revokes d now) = Unit

-- No call of the history stores a new grant under the family; rotations may be asked of it.
abbrev pub StoresNone : Text → List Call → Type 0
StoresNone f = All (IsStore f)

pub revoke_family-IsDead :
    (r : TokenRepository) (f : Text) (now : Instant) → IsDead f (revoke_family r f now)
unfolding revoke_family revoke_access_of revoke_access revoke_refresh_of revoke_refresh
revoke_family-IsDead r f now = (
  λ k. ground (arith, lookup-map_values (revoke_access_of f now) k r.access),
  λ k. ground (arith, lookup-map_values (revoke_refresh_of f now) k r.refresh),
)

revokes-IsDead :
    (r : TokenRepository) (f g : Text) (now : Instant)
    → IsDead f r
    → IsDead f (revoke_family r g now)
unfolding revoke_family revoke_access_of revoke_access revoke_refresh_of revoke_refresh
revokes-IsDead r f g now h = (
  λ k. ground (arith, h.0 k, lookup-map_values (revoke_access_of g now) k r.access),
  λ k. ground (arith, h.1 k, lookup-map_values (revoke_refresh_of g now) k r.refresh),
)

insert-access_in :
    (m : Map Text AccessTokenRecord) (f d k : Text) (a : AccessTokenRecord)
    → access_in f (some a) ≡ false
    → access_in f (lookup k m) ≡ false
    → access_in f (lookup k (insert d a m)) ≡ false
insert-access_in m f d k a n h = ground (arith, lookup-insert d k a m)

insert-refresh_in :
    (m : Map Text RefreshTokenRecord) (f d k : Text) (t : RefreshTokenRecord)
    → refresh_in f (some t) ≡ false
    → refresh_in f (lookup k m) ≡ false
    → refresh_in f (lookup k (insert d t m)) ≡ false
insert-refresh_in m f d k t n h = ground (arith, lookup-insert d k t m)

other-access_in : (a : AccessTokenRecord) (f : Text) → a.family ≢ f → access_in f (some a) ≡ false
other-access_in a f n = ground (arith, eq_iff a.family f)

other-refresh_in :
    (t : RefreshTokenRecord) (f : Text) → t.family ≢ f → refresh_in f (some t) ≡ false
other-refresh_in t f n = ground (arith, eq_iff t.family f)

store_initial-IsDead :
    (r : TokenRepository) (f : Text) (a : AccessTokenRecord) (t : RefreshTokenRecord)
    → a.family ≢ f
    → t.family ≢ f
    → IsDead f r
    → IsDead f (store_initial r a t).0
unfolding store_initial
store_initial-IsDead r f a t m n h = (
  λ k. ground (
    arith,
    h.0 k,
    insert-access_in r.access f (to_hex a.digest) k a (other-access_in a f m) (h.0 k),
  ),
  λ k. ground (
    arith,
    h.1 k,
    insert-refresh_in r.refresh f (to_hex t.digest) k t (other-refresh_in t f n) (h.1 k),
  ),
)

store_access_only-IsDead :
    (r : TokenRepository) (f : Text) (a : AccessTokenRecord)
    → a.family ≢ f
    → IsDead f r
    → IsDead f (store_access_only r a).0
unfolding store_access_only
store_access_only-IsDead r f a m h = (
  λ k. ground (
    arith,
    h.0 k,
    insert-access_in r.access f (to_hex a.digest) k a (other-access_in a f m) (h.0 k),
  ),
  λ k. ground (arith, h.1 k),
)

-- A rotation in the family finds no active token, so it stores nothing under the family.
rotate_refresh-IsDead :
    (r : TokenRepository) (f d : Text) (now : Instant) (a : AccessTokenRecord)
    (t : RefreshTokenRecord) (found : Option RefreshTokenRecord)
    → lookup (to_hex d) r.refresh ≡ found
    → IsDead f r
    → IsDead f (rotate_refresh r d now a t).0
unfolding rotate_refresh mark_used refresh_usable_at
rotate_refresh-IsDead r f d now a t none e h =
    (λ k. ground (arith, h.0 k), λ k. ground (arith, h.1 k))
rotate_refresh-IsDead r f d now a t (some u) e h = (
  λ k. ground (
    arith,
    h.0 k,
    h.1 (to_hex d),
    (revokes-IsDead r f u.family now h).0 k,
    insert-access_in r.access f (to_hex a.digest) k a,
    eq_iff a.family u.family,
  ),
  λ k. ground (
    arith,
    h.1 k,
    h.1 (to_hex d),
    (revokes-IsDead r f u.family now h).1 k,
    insert-refresh_in r.refresh f (to_hex d) k (mark_used now u),
    insert-refresh_in (insert (to_hex d) (mark_used now u) r.refresh) f (to_hex t.digest) k t,
    eq_iff t.family u.family,
  ),
)

revoke_token-IsDead :
    (r : TokenRepository) (f d : Text) (now : Instant) (found : Option AccessTokenRecord)
    (known : Option RefreshTokenRecord)
    → lookup (to_hex d) r.access ≡ found
    → lookup (to_hex d) r.refresh ≡ known
    → IsDead f r
    → IsDead f (revoke_token r d now)
unfolding revoke_token revoke_access
revoke_token-IsDead r f d now (some a) known e g h = (
  λ k. ground (
    arith,
    h.0 k,
    h.0 (to_hex d),
    insert-access_in r.access f (to_hex d) k (revoke_access now a),
  ),
  λ k. ground (arith, h.1 k),
)
revoke_token-IsDead r f d now none none e g h =
    (λ k. ground (arith, h.0 k), λ k. ground (arith, h.1 k))
revoke_token-IsDead r f d now none (some u) e g h = (
  λ k. ground (arith, (revokes-IsDead r f u.family now h).0 k),
  λ k. ground (arith, (revokes-IsDead r f u.family now h).1 k),
)

step-IsDead :
    (r : TokenRepository) (f : Text) (c : Call) → IsStore f c → IsDead f r → IsDead f (step r c)
unfolding step
step-IsDead r f (stores a t) n h = store_initial-IsDead r f a t n.0 n.1 h
step-IsDead r f (stores_access a) n h = store_access_only-IsDead r f a n h
step-IsDead r f (rotates d now a t) n h = rotate_refresh-IsDead r f d now a t _ refl h
step-IsDead r f (revokes_family g now) n h = revokes-IsDead r f g now h
step-IsDead r f (revokes d now) n h = revoke_token-IsDead r f d now _ _ refl refl h

pub run-IsDead :
    (r : TokenRepository) (f : Text) (cs : List Call)
    → StoresNone f cs
    → IsDead f r
    → IsDead f (run r cs)
unfolding run
run-IsDead r f [] n h = h
run-IsDead r f (c ∷ cs) n h = run-IsDead (step r c) f cs n.1 (step-IsDead r f c n.0 h)
