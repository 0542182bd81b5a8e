-- ===== src/Token/Service.antt =====
-- src/token/service.cpp: the token service over the repository. The state is the repository;
-- the clients, which the service only reads, randomness and the clock are arguments. What `issue`
-- takes, an `oauth::RedeemedAuthorization`, is the code that it wraps.
pub mod Access
pub mod Narrowing
pub mod Rotating
pub mod Device
pub mod CodeFlow
pub mod Machine
use openproof.Base.{
  ℕ, ◌+◌, Bool, true, false, not, ◌||◌, ◌&&◌, Option, none, some, List, [], ◌∷◌, ◌++◌, Text, bytes,
  text_key, ◌==◌, ◌!=◌, if◌then◌else◌, ltb, leb, is_empty, length, all_of, is_some,
}
use openproof.Foundation.{
  Result, ok, fail, ErrorCode, Status, Instant, Duration, refuse_if, invalid_argument,
  authentication_failed, permission_denied, failed_precondition,
}
use openproof.Foundation.Exec.{Exec, pure, raise, lift, attempt, reify, ◌>>=◌, ◌>>◌}
use openproof.Security.{Crypto, hmac_sha256}
use openproof.Identity.Assurance.{AssuranceLevel, AuthenticationStrength}
use openproof.Session.Delegated.{
  DelegatedAccess, DelegatedSenderConstraint, DelegatedSenderConstraintKind, delegated_access,
  from_delegated_access,
}
use openproof.Client.Manager.{require_active}
use openproof.Oauth.Model.{AuthorizationCode}
use openproof.Token.Model.{
  SenderConstraint, SenderConstraintKind, TokenContext, token_context, permits, permits_audience,
  AccessTokenRecord, RefreshTokenRecord, AccessTokenState, RefreshTokenState, access_usable_at,
  next_sequence, TokenClaims,
}
use openproof.Token.Grant.{
  create_key, TokenPolicy, create_policy, TokenService, TokenGrant, MachineTokenGrant,
  same_constraint, optional_list, access_record, refresh_record,
}
use openproof.Token.Store.{
  TokenRepository, store_initial, store_access_only, find_access, find_refresh, rotate_refresh,
  revoke_token,
}

module _ ⦃crypto : Crypto⦄ (service : TokenService) where
  unfoldable pub digest : Text → Result Text
  digest token =
      if is_empty token || ltb 256 (length token)
      then fail authentication_failed
      else hmac_sha256 service.key token

  unfoldable pub make_initial :
      TokenContext
      → Result Text
      → Result Text
      → Result Text
      → Instant
      → Exec TokenRepository TokenGrant
  make_initial context family_raw access_raw refresh_raw now = do
    lift (require_active service.applications service.clients context.client)
    family ← lift family_raw
    access_bytes ← lift access_raw
    refresh_bytes ← lift refresh_raw
    access_digest ← lift (digest (bytes "opa_" ++ access_bytes))
    refresh_digest ← lift (digest (bytes "opr_" ++ refresh_bytes))
    (λ r.
        store_initial r
          (access_record access_digest family context now (now + service.policy.access_lifetime))
          (refresh_record refresh_digest family 0 context now
            (now + service.policy.refresh_lifetime)))
    pure (record {
      access_token = bytes "opa_" ++ access_bytes;
      refresh_token = bytes "opr_" ++ refresh_bytes;
      expires_in = service.policy.access_lifetime;
      context = context;
    })

  unfoldable pub issue :
      AuthorizationCode
      → Option SenderConstraint
      → Result Text
      → Result Text
      → Result Text
      → Instant
      → Exec TokenRepository TokenGrant
  unfolding optional_list
  issue authorization sender_constraint family_raw access_raw refresh_raw now =
      make_initial
        (token_context authorization.client_id authorization.identity authorization.provider
          authorization.assurance authorization.strength authorization.scopes
          authorization.authenticated_at (optional_list authorization.resource) sender_constraint)
        family_raw access_raw refresh_raw now

  unfoldable pub introspect : Text → Instant → Exec TokenRepository TokenClaims
  introspect token now = do
    fingerprint ← lift (digest token)
    found ← (λ r. (r, find_access r fingerprint))
    lift (refuse_if (not (access_usable_at found now)) authentication_failed)
    client ←
        attempt (lift (require_active service.applications service.clients found.context.client))
    lift (refuse_if (not (is_some client)) authentication_failed)
    pure (record {
      is_active = true;
      context = found.context;
      issued_at = found.issued_at;
      expires_at = found.expires_at;
    })

  pub requested_scopes : List Text → List Text → List Text
  requested_scopes source [] = source
  requested_scopes source (scope ∷ scopes) = scope ∷ scopes

  -- A machine grant of narrower access for the subject of an access token.
  unfoldable pub issue_token_exchange :
      (client_id subject_token audience : Text) (scopes : List Text)
      (sender_constraint : Option SenderConstraint) (family_raw access_raw : Result Text)
      (looked_up_at now : Instant)
      → Exec TokenRepository MachineTokenGrant
  unfolding requested_scopes
  issue_token_exchange client_id subject_token audience scopes sender_constraint family_raw
        access_raw looked_up_at now =
      do
        source ← introspect subject_token looked_up_at
        lift (refuse_if (source.context.client != client_id) authentication_failed)
        lift (
            refuse_if (not (same_constraint source.context.sender_constraint sender_constraint))
              authentication_failed)
        lift (
            refuse_if (is_empty audience || not (permits_audience source.context audience))
              permission_denied)
        lift (
            refuse_if
              (not (
                all_of (λ s. permits source.context s)
                  (requested_scopes source.context.scopes scopes)))
              permission_denied)
        family ← lift family_raw
        access_bytes ← lift access_raw
        access_digest ← lift (digest (bytes "opa_" ++ access_bytes))
        let context =
            token_context client_id source.context.identity source.context.provider
              source.context.assurance source.context.strength
              (requested_scopes source.context.scopes scopes) source.context.authenticated_at
              (audience ∷ []) sender_constraint
        (λ r.
            store_access_only r (
              access_record access_digest family context now
                (now + service.policy.access_lifetime)))
        pure (record {
          access_token = bytes "opa_" ++ access_bytes;
          expires_in = service.policy.access_lifetime;
          context = context;
        })

  -- Rotation does not extend the lifetime of the family.
  unfoldable pub make_rotation :
      RefreshTokenRecord → Result Text → Result Text → Instant → Exec TokenRepository TokenGrant
  make_rotation current access_raw refresh_raw now = do
    access_bytes ← lift access_raw
    refresh_bytes ← lift refresh_raw
    access_digest ← lift (digest (bytes "opa_" ++ access_bytes))
    refresh_digest ← lift (digest (bytes "opr_" ++ refresh_bytes))
    (λ r.
        rotate_refresh r current.digest now
          (access_record access_digest current.family current.context now
            (now + service.policy.access_lifetime))
          (refresh_record refresh_digest current.family (next_sequence current.sequence)
            current.context now current.expires_at))
    pure (record {
      access_token = bytes "opa_" ++ access_bytes;
      refresh_token = bytes "opr_" ++ refresh_bytes;
      expires_in = service.policy.access_lifetime;
      context = current.context;
    })

  unfoldable pub refresh :
      (client_id refresh_token : Text) (sender_constraint : Option SenderConstraint)
      (access_raw refresh_raw : Result Text) (now : Instant)
      → Exec TokenRepository TokenGrant
  refresh client_id refresh_token sender_constraint access_raw refresh_raw now = do
    lift (require_active service.applications service.clients client_id)
    fingerprint ← lift (digest refresh_token)
    current ← (λ r. (r, find_refresh r fingerprint))
    lift (refuse_if (current.context.client != client_id) authentication_failed)
    lift (
        refuse_if (not (same_constraint current.context.sender_constraint sender_constraint))
          authentication_failed)
    make_rotation current access_raw refresh_raw now
