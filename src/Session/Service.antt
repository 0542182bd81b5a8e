-- ===== src/Session/Service.antt =====
-- src/session/service.cpp: the service over the repository. Randomness and the clock are arguments,
-- one for each call that the code makes; the state is the repository.
pub mod Issuing
pub mod Replacing
pub mod Listing
pub mod Access
pub mod Rotating
use openproof.Base.{
  ℕ, ◌≡◌, Bool, true, false, not, ◌||◌, Option, none, some, List, [], ◌∷◌, Text, text_key, ◌==◌,
  ◌!=◌, if◌then◌else◌, ltb, leb, is_empty, length, keep_if,
}
use openproof.Foundation.{
  Result, ok, fail, ErrorCode, Instant, Duration, invalid_argument, authentication_failed,
  permission_denied, not_found,
}
use openproof.Foundation.Exec.{Exec, pure, raise, lift, attempt, reify, ◌>>=◌, ◌>>◌}
use openproof.Security.{Crypto, hmac_sha256}
use openproof.Identity.Assurance.{AssuranceLevel, AuthenticationStrength}
use openproof.Session.Model.{Session, create, is_active, is_expired_at}
use openproof.Session.Store.{SessionRepository, add, use_token}
use openproof.Session.Store as Store
use openproof.Session.Delegated.{DelegatedAccess, permits}

unfoldable pub create_key : Text → Result Text
create_key secret = if ltb (length secret) 32 then fail invalid_argument else ok secret

pub record SessionPolicy : Type 0 where
  pub absolute_lifetime : Duration
  pub idle_timeout : Duration

unfoldable pub create_policy : Duration → Duration → Result SessionPolicy
create_policy absolute_lifetime idle_timeout =
    if leb absolute_lifetime 0 || leb idle_timeout 0 || ltb absolute_lifetime idle_timeout
    then fail invalid_argument
    else ok (record { absolute_lifetime = absolute_lifetime; idle_timeout = idle_timeout })

pub record SessionService : Type 0 where
  pub key : Text
  pub policy : SessionPolicy

-- What the service reads of a `VerifiedAuthentication` and of its outcome.
pub record VerifiedAuthentication : Type 0 where
  pub identity : Text
  pub provider : Text
  pub claimed_assurance : AssuranceLevel
  pub strength : AuthenticationStrength
  pub verified_at : Instant

pub record ClientContext : Type 0 where
  pub user_agent : Text
  pub remote_address : Text

pub record SessionGrant : Type 0 where
  pub id : Text
  pub token : Text

unless_empty : Text → Option Text
unless_empty t = if is_empty t then none else some t

module _ ⦃crypto : Crypto⦄ (service : SessionService) where
  unfoldable pub digest : Text → Result Text
  digest token =
      if is_empty token then fail authentication_failed else hmac_sha256 service.key token

  unfoldable pub new_session :
      VerifiedAuthentication → ClientContext → Text → Text → Instant → Result Session
  unfolding unless_empty
  new_session authentication client id fingerprint now =
      create id authentication.identity authentication.provider authentication.claimed_assurance
        authentication.strength authentication.verified_at fingerprint now
        service.policy.absolute_lifetime service.policy.idle_timeout
        (unless_empty client.user_agent) (unless_empty client.remote_address)

  unfoldable pub issue :
      VerifiedAuthentication
      → ClientContext
      → Result Text
      → Result Text
      → Instant
      → Exec SessionRepository SessionGrant
  issue authentication client generated_id generated_token now = do
    id ← lift generated_id
    token ← lift generated_token
    fingerprint ← lift (digest token)
    session ← lift (new_session authentication client id fingerprint now)
    (λ r. add r session)
    pure (record { id = id; token = token })

  unfoldable pub authenticate : Text → Instant → Exec SessionRepository Session
  authenticate token now = do fingerprint ← lift (digest token); (λ r. use_token r fingerprint now)

  identifier : Option Session → Option Text
  identifier none = none
  identifier (some s) = some s.id

  previous_id : Option Text → Instant → Exec SessionRepository (Option Text)
  unfolding identifier
  previous_id none now = pure none
  previous_id (some token) now =
      if is_empty token
      then pure none
      else attempt (authenticate token now) >>= λ existing. pure (identifier existing)

  -- If the old session cannot be revoked, the new one is, and its token is not returned.
  settle : SessionGrant → Instant → Result (Unit {0}) → Exec SessionRepository SessionGrant
  settle created now (ok u) = pure created
  settle created now (fail e) = do attempt (λ r. Store.revoke r created.id now); raise e

  replace : Option Text → SessionGrant → Instant → Instant → Exec SessionRepository SessionGrant
  unfolding settle
  replace none created now later = pure created
  replace (some id) created now later =
      if id != created.id
      then (reify (λ r. Store.revoke r id now) >>= λ outcome. settle created later outcome)
      else pure created

  unfoldable pub issue_replacing :
      VerifiedAuthentication
      → ClientContext
      → Option Text
      → Result Text
      → Result Text
      → Instant
      → Instant
      → Instant
      → Instant
      → Exec SessionRepository SessionGrant
  unfolding previous_id replace
  issue_replacing authentication client previous_token generated_id generated_token looked_up_at
        issued_at revoked_at undone_at =
      do
        previous ← previous_id previous_token looked_up_at
        created ← issue authentication client generated_id generated_token issued_at
        replace previous created revoked_at undone_at

  admit : DelegatedAccess → Text → Exec SessionRepository Session
  admit access required_scope = elim access.sender_constraint [
    | some c ↦ raise authentication_failed
    | none ↦
        if not (permits access required_scope)
        then raise permission_denied
        else pure access.authenticated
  ]

  delegate :
      Text
      → Option (Text → Result DelegatedAccess)
      → Text
      → Result Session
      → Exec SessionRepository Session
  unfolding admit
  delegate token delegated required_scope (ok s) = pure s
  delegate token none required_scope (fail e) = raise e
  delegate token (some authenticator) required_scope (fail e) = do
    access ← lift (authenticator token)
    admit access required_scope

  -- A first-party session, or else access that an authenticator of delegated tokens grants.
  unfoldable pub authenticate_delegated :
      Text
      → Option (Text → Result DelegatedAccess)
      → Text
      → Instant
      → Exec SessionRepository Session
  unfolding delegate
  authenticate_delegated token delegated required_scope now = do
    first_party ← reify (authenticate token now)
    delegate token delegated required_scope first_party

  unfoldable pub rotate :
      Text → Result Text → Instant → Instant → Exec SessionRepository SessionGrant
  rotate token generated now later = do
    old_fingerprint ← lift (digest token)
    current ← (λ r. use_token r old_fingerprint now)
    replacement ← lift generated
    replacement_fingerprint ← lift (digest replacement)
    (λ r. Store.rotate r current.id old_fingerprint replacement_fingerprint later)
    pure (record { id = current.id; token = replacement })
