-- ===== src/Token/Service/Access.antt =====
-- src/token/service.cpp: revocation, and the service as an authenticator of delegated tokens.
use openproof.Base.{Bool, false, Option, none, some, Text, text_key, ◌==◌, if◌then◌else◌}
use openproof.Foundation.{Result, ok, fail, Instant}
use openproof.Foundation.Exec.{Exec, pure, lift, ◌>>=◌}
use openproof.Security.{Crypto}
use openproof.Session.Delegated.{
  DelegatedAccess, DelegatedSenderConstraint, DelegatedSenderConstraintKind, delegated_access,
  from_delegated_access,
}
use openproof.Token.Model.{
  SenderConstraint, SenderConstraintKind, AccessTokenRecord, RefreshTokenRecord,
}
use openproof.Token.Grant.{TokenService}
use openproof.Token.Store.{TokenRepository, find_access, find_refresh, revoke_token}
use openproof.Token.Service.{digest, introspect}

-- The constraint of delegated access is that of the token.
delegated_constraint : Option SenderConstraint → Option DelegatedSenderConstraint
delegated_constraint none = none
delegated_constraint (some c) = some (record { kind = delegated_kind c.kind; value = c.value })
  where
    delegated_kind : SenderConstraintKind → DelegatedSenderConstraintKind
    delegated_kind SenderConstraintKind.dpop = DelegatedSenderConstraintKind.dpop
    delegated_kind SenderConstraintKind.mtls = DelegatedSenderConstraintKind.mtls

module _ ⦃crypto : Crypto⦄ (service : TokenService) where
  revoke_digest : Instant → Result Text → Exec TokenRepository (Unit {0})
  revoke_digest now (fail e) r = (r, ok tt)
  revoke_digest now (ok fingerprint) r = (revoke_token r fingerprint now, ok tt)

  unfoldable pub revoke : Text → Instant → Exec TokenRepository (Unit {0})
  unfolding revoke_digest
  revoke token now = revoke_digest now (digest service token)

  owns_access : Text → Result AccessTokenRecord → Bool
  owns_access client_id (ok a) = a.context.client == client_id
  owns_access client_id (fail e) = false

  owns_refresh : Text → Result RefreshTokenRecord → Bool
  owns_refresh client_id (ok t) = t.context.client == client_id
  owns_refresh client_id (fail e) = false

  revoke_owned : Text → Instant → Result Text → Exec TokenRepository (Unit {0})
  unfolding owns_access owns_refresh
  revoke_owned client_id now (fail e) r = (r, ok tt)
  revoke_owned client_id now (ok fingerprint) r =
      if owns_access client_id (find_access r fingerprint)
      then (revoke_token r fingerprint now, ok tt)
      else if owns_refresh client_id (find_refresh r fingerprint)
      then (revoke_token r fingerprint now, ok tt)
      else (r, ok tt)

  unfoldable pub revoke_for_client : Text → Text → Instant → Exec TokenRepository (Unit {0})
  unfolding revoke_owned
  revoke_for_client client_id token now = revoke_owned client_id now (digest service token)

  -- The service as the authenticator of delegated tokens.
  unfoldable pub authenticate_delegated :
      Text → Instant → Instant → Exec TokenRepository DelegatedAccess
  unfolding delegated_constraint
  authenticate_delegated token looked_up_at now = do
    claims ← introspect service token looked_up_at
    authenticated ← lift (
        from_delegated_access claims.context.identity claims.context.provider
          claims.context.assurance claims.context.strength claims.context.authenticated_at now
          claims.expires_at)
    pure (
        delegated_access authenticated claims.context.client claims.context.scopes
          claims.context.audiences (delegated_constraint claims.context.sender_constraint))
