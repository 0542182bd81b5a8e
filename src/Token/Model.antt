-- ===== src/Token/Model.antt =====
-- src/token/model.cpp: sender constraints, the context of a grant, and the two kinds of record.
-- A method that changes a record returns the changed one.
use openproof.Base.{
  ℕ, ◌+◌, ◌%◌, Bool, true, false, ◌&&◌, ◌||◌, Option, some, List, Text, text_key, ltb, leb, eqb,
  is_empty, length, any_of, sort_unique, contains, if◌then◌else◌,
}
use openproof.Foundation.{Result, ok, fail, Instant, invalid_argument}
use openproof.Identity.Assurance.{AssuranceLevel, AuthenticationStrength}

pub data SenderConstraintKind : Type 0 where
  dpop mtls : SenderConstraintKind

pub record SenderConstraint : Type 0 where
  pub kind : SenderConstraintKind
  pub value : Text

unfoldable pub create : SenderConstraintKind → Text → Result SenderConstraint
create kind value =
    if is_empty value
      || ltb 256 (length value)
      || any_of (λ byte. leb byte 32 || eqb byte 127) value
    then fail invalid_argument
    else ok (record { kind = kind; value = value })

pub record TokenContext : Type 0 where
  pub client : Text
  pub identity : Text
  pub provider : Text
  pub assurance : AssuranceLevel
  pub strength : AuthenticationStrength
  pub scopes : List Text
  pub audiences : List Text
  pub sender_constraint : Option SenderConstraint
  pub authenticated_at : Instant

-- The constructor puts the scopes and the audiences in order and drops duplicates.
unfoldable pub token_context :
    (client identity provider : Text) (assurance : AssuranceLevel)
    (strength : AuthenticationStrength) (scopes : List Text) (authenticated_at : Instant)
    (audiences : List Text) (sender_constraint : Option SenderConstraint)
    → TokenContext
token_context client identity provider assurance strength scopes authenticated_at audiences
      sender_constraint =
    record {
      client = client;
      identity = identity;
      provider = provider;
      assurance = assurance;
      strength = strength;
      scopes = sort_unique scopes;
      audiences = sort_unique audiences;
      sender_constraint = sender_constraint;
      authenticated_at = authenticated_at;
    }

unfoldable pub permits : TokenContext → Text → Bool
permits context scope = is_empty scope || contains scope context.scopes

unfoldable pub permits_audience : TokenContext → Text → Bool
permits_audience context audience = is_empty audience || contains audience context.audiences

pub data AccessTokenState : Type 0 where
  active revoked : AccessTokenState

pub record AccessTokenRecord : Type 0 where
  pub digest : Text
  pub family : Text
  pub context : TokenContext
  pub issued_at : Instant
  pub expires_at : Instant
  pub state : AccessTokenState
  pub revoked_at : Option Instant

abbrev pub is_access_active : AccessTokenState → Bool
is_access_active active = true
is_access_active revoked = false

unfoldable pub access_usable_at : AccessTokenRecord → Instant → Bool
access_usable_at a now = is_access_active a.state && ltb now a.expires_at

unfoldable pub revoke_access : Instant → AccessTokenRecord → AccessTokenRecord
revoke_access now a =
    if is_access_active a.state then record a { state = revoked; revoked_at = some now } else a

pub data RefreshTokenState : Type 0 where
  active used revoked : RefreshTokenState

pub record RefreshTokenRecord : Type 0 where
  pub digest : Text
  pub family : Text
  pub sequence : ℕ
  pub context : TokenContext
  pub issued_at : Instant
  pub expires_at : Instant
  pub state : RefreshTokenState
  pub changed_at : Option Instant

abbrev pub is_refresh_active : RefreshTokenState → Bool
is_refresh_active active = true
is_refresh_active used = false
is_refresh_active revoked = false

abbrev pub is_refresh_revoked : RefreshTokenState → Bool
is_refresh_revoked revoked = true
is_refresh_revoked active = false
is_refresh_revoked used = false

unfoldable pub refresh_usable_at : RefreshTokenRecord → Instant → Bool
refresh_usable_at t now = is_refresh_active t.state && ltb now t.expires_at

unfoldable pub mark_used : Instant → RefreshTokenRecord → RefreshTokenRecord
mark_used now t =
    if is_refresh_active t.state then record t { state = used; changed_at = some now } else t

unfoldable pub revoke_refresh : Instant → RefreshTokenRecord → RefreshTokenRecord
revoke_refresh now t =
    if is_refresh_revoked t.state then t else record t { state = revoked; changed_at = some now }

-- A sequence number is 64 bits wide.
unfoldable pub next_sequence : ℕ → ℕ
next_sequence n = (n + 1) % 18446744073709551616

pub record TokenClaims : Type 0 where
  pub is_active : Bool
  pub context : TokenContext
  pub issued_at : Instant
  pub expires_at : Instant
