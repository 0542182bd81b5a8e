-- ===== src/Token/Store.antt =====
-- src/token/repository.cpp: the in-memory repository, records by the hexadecimal text of their
-- digest. The lock makes each method one step; a method returns the repository it leaves.
pub mod Calls
pub mod Families
pub mod Reuse
use openproof.Base.{
  ℕ, Bool, true, false, not, ◌&&◌, ◌||◌, Option, none, some, List, [], ◌∷◌, Text, text_key, ◌==◌,
  ◌!=◌, if◌then◌else◌, eqb, Map, lookup, contains_key, insert, map_values,
}
use openproof.Foundation.{
  Result, ok, fail, Status, Instant, authentication_failed, already_exists, invalid_argument,
}
use openproof.Foundation.Encoding.{to_hex}
use openproof.Token.Model.{
  AccessTokenRecord, RefreshTokenRecord, refresh_usable_at, revoke_access, revoke_refresh,
  mark_used, next_sequence,
}

pub record TokenRepository : Type 0 where
  pub access : Map Text AccessTokenRecord
  pub refresh : Map Text RefreshTokenRecord

unfoldable pub empty : TokenRepository
empty = record { access = []; refresh = [] }

unfoldable pub store_initial :
    TokenRepository → AccessTokenRecord → RefreshTokenRecord → TokenRepository × Status
store_initial r a t =
    if contains_key (to_hex a.digest) r.access || contains_key (to_hex t.digest) r.refresh
    then (r, fail already_exists)
    else (
      record {
        access = insert (to_hex a.digest) a r.access;
        refresh = insert (to_hex t.digest) t r.refresh;
      },
      ok tt,
    )

unfoldable pub store_access_only : TokenRepository → AccessTokenRecord → TokenRepository × Status
store_access_only r a =
    if contains_key (to_hex a.digest) r.access
    then (r, fail already_exists)
    else (record r { access = insert (to_hex a.digest) a r.access }, ok tt)

or_invalid {ℓ} : {A : Type ℓ} → Option A → Result A
or_invalid none = fail authentication_failed
or_invalid (some a) = ok a

unfoldable pub find_access : TokenRepository → Text → Result AccessTokenRecord
unfolding or_invalid
find_access r digest = or_invalid (lookup (to_hex digest) r.access)

unfoldable pub find_refresh : TokenRepository → Text → Result RefreshTokenRecord
unfolding or_invalid
find_refresh r digest = or_invalid (lookup (to_hex digest) r.refresh)

-- What the loops over a family do to one record.
unfoldable pub revoke_access_of : Text → Instant → AccessTokenRecord → AccessTokenRecord
revoke_access_of family now a = if a.family == family then revoke_access now a else a

unfoldable pub revoke_refresh_of : Text → Instant → RefreshTokenRecord → RefreshTokenRecord
revoke_refresh_of family now t = if t.family == family then revoke_refresh now t else t

unfoldable pub revoke_family : TokenRepository → Text → Instant → TokenRepository
revoke_family r family now = record {
  access = map_values (revoke_access_of family now) r.access;
  refresh = map_values (revoke_refresh_of family now) r.refresh;
}

rotate_found :
    TokenRepository
    → Text
    → Instant
    → AccessTokenRecord
    → RefreshTokenRecord
    → Option RefreshTokenRecord
    → TokenRepository × Status
rotate_found r presented now a t none = (r, fail authentication_failed)
rotate_found r presented now a t (some found) =
    if not (refresh_usable_at found now)
    then (revoke_family r found.family now, fail authentication_failed)
    else if (a.family != found.family)
        || (t.family != found.family)
        || not (eqb t.sequence (next_sequence found.sequence))
    then (r, fail invalid_argument)
    else if contains_key (to_hex a.digest) r.access || contains_key (to_hex t.digest) r.refresh
    then (r, fail already_exists)
    else (
      record {
        access = insert (to_hex a.digest) a r.access;
        refresh =
            insert (to_hex t.digest) t (insert (to_hex presented) (mark_used now found) r.refresh);
      },
      ok tt,
    )

unfoldable pub rotate_refresh :
    TokenRepository
    → Text
    → Instant
    → AccessTokenRecord
    → RefreshTokenRecord
    → TokenRepository × Status
unfolding rotate_found
rotate_refresh r presented now a t =
    rotate_found r presented now a t (lookup (to_hex presented) r.refresh)

revoke_refresh_found : TokenRepository → Instant → Option RefreshTokenRecord → TokenRepository
revoke_refresh_found r now none = r
revoke_refresh_found r now (some t) = revoke_family r t.family now

revoke_found : TokenRepository → Text → Instant → Option AccessTokenRecord → TokenRepository
unfolding revoke_refresh_found
revoke_found r digest now (some a) = record r {
  access = insert (to_hex digest) (revoke_access now a) r.access;
}
revoke_found r digest now none = revoke_refresh_found r now (lookup (to_hex digest) r.refresh)

unfoldable pub revoke_token : TokenRepository → Text → Instant → TokenRepository
unfolding revoke_found
revoke_token r digest now = revoke_found r digest now (lookup (to_hex digest) r.access)
