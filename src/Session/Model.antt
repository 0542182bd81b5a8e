-- ===== src/Session/Model.antt =====
-- src/session/model.cpp: one session, with its absolute and its idle deadline.
pub mod Lifetime
pub mod Storage
use openproof.Base.{
  ℕ, ◌+◌, ◌≡◌, Bool, true, false, ◌||◌, Option, none, some, Text, ltb, leb, eqb, not, if◌then◌else◌,
  is_empty, is_some, length,
}
use openproof.Foundation.{
  ErrorCode, Result, ok, fail, Status, ◌>>=◌, ◌>>◌, refuse_if, Instant, Duration, invalid_argument,
  authentication_failed, failed_precondition,
}
use openproof.Security.{Crypto, constant_time_equals}
use openproof.Identity.Assurance.{AssuranceLevel, AuthenticationStrength}

pub data SessionState : Type 0 where
  active revoked expired : SessionState

abbrev pub is_active : SessionState → Bool
is_active active = true
is_active revoked = false
is_active expired = false

abbrev pub is_revoked : SessionState → Bool
is_revoked active = false
is_revoked revoked = true
is_revoked expired = false

-- The token digest stands for the token: the token itself is not stored.
pub record Session : Type 0 where
  pub id : Text
  pub identity : Text
  pub provider : Text
  pub assurance : AssuranceLevel
  pub strength : AuthenticationStrength
  pub state : SessionState
  pub authenticated_at : Instant
  pub token_digest : Text
  pub issued_at : Instant
  pub last_seen_at : Instant
  pub absolute_expires_at : Instant
  pub idle_timeout : Duration
  pub revoked_at : Option Instant
  pub user_agent : Option Text
  pub remote_address : Option Text

-- Client metadata that is longer than `limit` bytes.
too_large : ℕ → Option Text → Bool
too_large limit none = false
too_large limit (some text) = ltb limit (length text)

unfoldable pub create :
    (id identity provider : Text) (assurance : AssuranceLevel) (strength : AuthenticationStrength)
    (authenticated_at : Instant) (token_digest : Text) (issued_at : Instant)
    (absolute_lifetime idle_timeout : Duration) (user_agent remote_address : Option Text)
    → Result Session
unfolding too_large
create id identity provider assurance strength authenticated_at token_digest issued_at
      absolute_lifetime idle_timeout user_agent remote_address =
    do
      refuse_if (is_empty id || is_empty identity || is_empty provider) invalid_argument
      refuse_if (leb absolute_lifetime 0 || leb idle_timeout 0) invalid_argument
      refuse_if (ltb issued_at authenticated_at) invalid_argument
      refuse_if (too_large 1024 user_agent || too_large 128 remote_address) invalid_argument
      ok (record {
        id = id;
        identity = identity;
        provider = provider;
        assurance = assurance;
        strength = strength;
        state = active;
        authenticated_at = authenticated_at;
        token_digest = token_digest;
        issued_at = issued_at;
        last_seen_at = issued_at;
        absolute_expires_at = issued_at + absolute_lifetime;
        idle_timeout = idle_timeout;
        revoked_at = none;
        user_agent = user_agent;
        remote_address = remote_address;
      })

-- `(state == Revoked) != revokedAt.has_value()`
differ : Bool → Bool → Bool
differ true b = not b
differ false b = b

-- A session read back from storage, field by field.
unfoldable pub restore : Session → Result Session
unfolding too_large differ
restore s = do
  refuse_if
      (is_empty s.id
        || is_empty s.identity
        || is_empty s.provider
        || ltb s.issued_at s.authenticated_at
        || ltb s.last_seen_at s.issued_at
        || leb s.absolute_expires_at s.last_seen_at
        || leb s.idle_timeout 0
        || differ (is_revoked s.state) (is_some s.revoked_at)
        || too_large 1024 s.user_agent
        || too_large 128 s.remote_address)
      invalid_argument
  ok s

abbrev pub idle_expires_at : Session → Instant
idle_expires_at s = s.last_seen_at + s.idle_timeout

abbrev pub is_expired_at : Session → Instant → Bool
is_expired_at s now = leb s.absolute_expires_at now || leb (idle_expires_at s) now

module _ ⦃crypto : Crypto⦄ where
  -- A refusal because a deadline has passed leaves the session expired.
  unfoldable pub use_session : Session → Text → Instant → Session × Status
  use_session s presented now =
      if not (is_active s.state)
      then (s, fail authentication_failed)
      else if is_expired_at s now
      then (record s { state = expired }, fail authentication_failed)
      else if not (constant_time_equals s.token_digest presented)
      then (s, fail authentication_failed)
      else (record s { last_seen_at = now }, ok tt)

  replace_if : Session × Status → Text → Session × Status
  replace_if (s, fail e) replacement = (s, fail e)
  replace_if (s, ok u) replacement = (record s { token_digest = replacement }, ok tt)

  unfoldable pub rotate_token : Session → Text → Text → Instant → Session × Status
  unfolding replace_if
  rotate_token s expected replacement now = replace_if (use_session s expected now) replacement

revoke_in : SessionState → Session → Instant → Session × Status
revoke_in revoked s now = (s, ok tt)
revoke_in expired s now = (s, fail failed_precondition)
revoke_in active s now = (record s { state = revoked; revoked_at = some now }, ok tt)

unfoldable pub revoke : Session → Instant → Session × Status
unfolding revoke_in
revoke s now = revoke_in s.state s now

unfoldable pub mark_expired : Session → Session
mark_expired s = if is_active s.state then record s { state = expired } else s
