-- ===== src/Token/Service/Machine.antt =====
-- src/token/service.cpp: the grant of a service for itself, by its client credentials.
use openproof.Base.{
  ◌+◌, ◌<◌, ◌≡◌, refl, true, false, not, ◌||◌, Option, List, [], ◌∷◌, ◌++◌, Text, text_key, bytes,
  eq_refl, arith, inl, inr, is_empty, if◌then◌else◌, place, sort_unique, lookup-insert,
}
use openproof.Foundation.{
  Result, ok, fail, Instant, refuse_if, permission_denied, authentication_failed, Result-cases,
}
use openproof.Foundation.Exec.{Exec, pure, lift, ◌>>=◌, ◌>>◌}
use openproof.Foundation.Encoding.{to_hex}
use openproof.Security.{Crypto}
use openproof.Identity.Assurance.{ial1}
use openproof.Client.Model.{Client, is_service}
use openproof.Client.Manager.{require_active}
use openproof.Resource.Model.{ServiceIdentity, permits_audience, permits_scopes}
use openproof.Token.Model.{
  SenderConstraint, TokenContext, TokenClaims, token_context, access_usable_at,
}
use openproof.Token.Grant.{TokenService, MachineTokenGrant, access_record}
use openproof.Token.Store.{TokenRepository, store_access_only, find_access}
use openproof.Token.Service.{digest, introspect}

-- An active client of a service; every other is an error of authentication.
service_client : Result Client → Result Client
service_client (fail e) = fail authentication_failed
service_client (ok client) =
    if is_service client.kind then ok client else fail authentication_failed

-- Knowledge is the one factor.
pub machine_context :
    ServiceIdentity → Text → List Text → Option SenderConstraint → Instant → TokenContext
machine_context identity audience scopes sender_constraint now =
    token_context identity.client identity.identity (bytes "client_credentials") ial1
      (record { factors = 1; phishing_resistant = false }) scopes now (audience ∷ [])
      sender_constraint

module _ ⦃crypto : Crypto⦄ (service : TokenService) where
  unfoldable pub issue_client_credentials :
      ServiceIdentity
      → (audience : Text) (scopes : List Text) (sender_constraint : Option SenderConstraint)
        (family_raw access_raw : Result Text) (now : Instant)
      → Exec TokenRepository MachineTokenGrant
  unfolding service_client machine_context
  issue_client_credentials identity audience scopes sender_constraint family_raw access_raw now = do
    lift (
        refuse_if
          (not identity.active
            || not (permits_audience identity audience)
            || not (permits_scopes identity scopes)
            || is_empty scopes)
          permission_denied)
    client ←
        lift (service_client (require_active service.applications service.clients identity.client))
    family ← lift family_raw
    access_bytes ← lift access_raw
    access_digest ← lift (digest service (bytes "opa_" ++ access_bytes))
    let context = machine_context identity audience scopes sender_constraint now
    (λ r.
        store_access_only r
          (access_record access_digest family context now (now + service.policy.access_lifetime)))
    pure (record {
      access_token = bytes "opa_" ++ access_bytes;
      expires_in = service.policy.access_lifetime;
      context = context;
    })

  -- A machine grant is made for an active service identity of an active service client only, within
  -- its scopes and its audiences; and until its lifetime has passed introspection of its access token
  -- gives the service's own identity and client, just that audience and just those scopes.
  pub introspect-issue_client_credentials :
      (identity : ServiceIdentity) (audience : Text) (scopes : List Text)
      (sender_constraint : Option SenderConstraint) (family a : Text) (now later : Instant)
      (r : TokenRepository) {grant : MachineTokenGrant}
      → (issue_client_credentials identity audience scopes sender_constraint
          (ok family)
          (ok a)
          now
          r).1
        ≡ ok grant
      → later < now + service.policy.access_lifetime
      → (identity.active ≡ true)
        × (permits_audience identity audience ≡ true)
        × (permits_scopes identity scopes ≡ true)
        × ((client : Client) × (require_active service.applications service.clients identity.client
              ≡ ok client)
            × (is_service client.kind ≡ true))
        × ((claims : TokenClaims) × ((introspect service grant.access_token later
                (issue_client_credentials identity audience scopes sender_constraint
                  (ok family)
                  (ok a)
                  now
                  r).0).1
              ≡ ok claims)
            × (claims.context.identity ≡ identity.identity)
            × (claims.context.client ≡ identity.client)
            × (claims.context.audiences ≡ audience ∷ [])
            × (claims.context.scopes ≡ sort_unique scopes))
  unfolding issue_client_credentials introspect find_access store_access_only access_record
      access_usable_at token_context sort_unique place machine_context
  introspect-issue_client_credentials identity audience scopes sender_constraint family a now later
        r {grant} h live =
      elim (Result-cases (digest service (bytes "opa_" ++ a))) [
        | inr (e, da) ↦ absurd (ground arith)
        | inl (x, da) ↦
            elim (Result-cases
              (require_active service.applications service.clients identity.client)) [
                | inr (e, p) ↦ absurd (ground arith)
                | inl (client, p) ↦
                    let context : TokenContext =
                      machine_context identity audience scopes sender_constraint now in
                    let claims : TokenClaims = record {
                      is_active = true;
                      context = context;
                      issued_at = now;
                      expires_at = now + service.policy.access_lifetime;
                    } in
                    (
                      ground arith,
                      ground arith,
                      ground arith,
                      (client, p, ground arith),
                      (
                        claims,
                        ground (
                          arith,
                          lookup-insert (to_hex x) (to_hex x)
                              (access_record x family context now
                                (now + service.policy.access_lifetime))
                              r.access,
                          eq_refl (to_hex x),
                        ),
                        refl,
                        refl,
                        refl,
                        refl,
                      ),
                    )
              ]
      ]
