-- ===== src/Consent/Model.antt =====
-- src/consent/model.cpp: one grant of consent.
use openproof.Base.{
  Bool, true, false, not, ◌&&◌, ◌||◌, Option, none, some, is_some, List, Text, text_key, ltb, leb,
  is_empty, length, any_of, all_of, sort_unique, contains, if◌then◌else◌,
}
use openproof.Foundation.{Result, ok, fail, Instant, ◌>>=◌, invalid_argument, succeeded}
use openproof.Client.Model.{create_scope}

unfoldable pub normalize_scopes : List Text → Result (List Text)
normalize_scopes scopes =
    if is_empty scopes || ltb 256 (length scopes)
    then fail invalid_argument
    else if any_of (λ value. not (succeeded (create_scope value))) scopes
    then fail invalid_argument
    else ok (sort_unique scopes)

pub record ConsentGrant : Type 0 where
  pub id : Text
  pub identity : Text
  pub client : Text
  pub audience : Text
  pub scopes : List Text
  pub granted_at : Instant
  pub expires_at : Option Instant
  pub revoked_at : Option Instant

invalid_expiry : Instant → Option Instant → Bool
invalid_expiry granted_at none = false
invalid_expiry granted_at (some at) = leb at granted_at

invalid_revocation : Instant → Option Instant → Bool
invalid_revocation granted_at none = false
invalid_revocation granted_at (some at) = ltb at granted_at

-- The fields as they were stored, the scopes in any order.
unfoldable pub restore : ConsentGrant → Result ConsentGrant
unfolding invalid_expiry invalid_revocation
restore g = normalize_scopes g.scopes >>= λ scopes.
    (if is_empty g.id
        || is_empty g.identity
        || is_empty g.client
        || is_empty g.audience
        || ltb 2048 (length g.audience)
        || invalid_expiry g.granted_at g.expires_at
        || invalid_revocation g.granted_at g.revoked_at
      then fail invalid_argument
      else ok (record g { scopes = scopes }))

unfoldable pub create :
    (id identity client audience : Text) (scopes : List Text) (granted_at : Instant)
    (expires_at : Option Instant)
    → Result ConsentGrant
create id identity client audience scopes granted_at expires_at = restore (record {
  id = id;
  identity = identity;
  client = client;
  audience = audience;
  scopes = scopes;
  granted_at = granted_at;
  expires_at = expires_at;
  revoked_at = none;
})

unfoldable pub in_time : Instant → Option Instant → Bool
in_time now none = true
in_time now (some at) = ltb now at

unfoldable pub active_at : ConsentGrant → Instant → Bool
unfolding in_time
active_at g now = not (is_some g.revoked_at) && in_time now g.expires_at

-- The search of the sorted scopes is by halves in the source.
unfoldable pub covers : ConsentGrant → List Text → Bool
covers g scopes = all_of (λ scope. contains scope g.scopes) scopes

unfoldable pub revoke : ConsentGrant → Instant → ConsentGrant
revoke g now = if is_some g.revoked_at then g else record g { revoked_at = some now }
