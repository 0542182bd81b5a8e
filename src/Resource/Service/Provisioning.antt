-- ===== src/Resource/Service/Provisioning.antt =====
-- src/resource/service.cpp: what a provisioning demands, and what a failure leaves.
use openproof.Base.{
  ◌≡◌, true, some, List, [], ◌∷◌, Text, text_key, arith, inl, inr, sym, Option-cases, Member,
  lookup,
}
use openproof.Foundation.{Result, ok, Instant, Result-cases}
use openproof.Client.Model.{Client, is_service}
use openproof.Client.Manager as Manager
use openproof.Identity.Subject.{Identity, SubjectKind, IdentityStatus}
use openproof.Identity.Subject as Subject
use openproof.Identity.Repository.{Owned}
use openproof.Resource.Model.{ResourceServer, ServiceIdentity, is_active, resource_permits_scopes}
use openproof.Resource.Repository.{ResourceRepository, find_by_audience}
use openproof.Resource.Service.{
  ServiceIdentityService, Stores, check_audiences, provision_checks, provision,
}

check_audiences_sound :
    (r : ResourceRepository) (scopes audiences : List Text) (audience : Text)
    → check_audiences r scopes audiences ≡ ok tt
    → Member audience audiences
    → (resource : ResourceServer) × (lookup audience r.resources ≡ some resource)
      × (is_active resource.status ≡ true)
      × (resource_permits_scopes resource scopes ≡ true)
unfolding check_audiences find_by_audience
check_audiences_sound r scopes [] audience h m = elim m [ ]
check_audiences_sound r scopes (a ∷ audiences) audience h (inr m) =
    check_audiences_sound r scopes audiences audience (ground arith) m
check_audiences_sound r scopes (a ∷ audiences) audience h (inl e) =
    elim (Option-cases (lookup a r.resources)) [
      | inl p ↦ absurd (ground arith)
      | inr (resource, p) ↦ (resource, rw (sym e) p, ground arith, ground arith)
    ]

-- A service identity that was provisioned belongs to an active service client, and for each audience
-- that was asked for there is an active resource server of that audience which permits every scope
-- that was asked for.
pub provision_sound :
    (service : ServiceIdentityService) (s : Stores) (client_id audience : Text)
    (audiences scopes : List Text) (random : Result Text) (now : Instant)
    {created : ServiceIdentity}
    → (provision service s client_id audiences scopes random now).1 ≡ ok created
    → Member audience audiences
    → ((client : Client) × (Manager.require_active service.applications service.clients client_id
          ≡ ok client)
        × (is_service client.kind ≡ true))
      × ((resource : ResourceServer) × (lookup audience s.resources.resources ≡ some resource)
          × (is_active resource.status ≡ true)
          × (resource_permits_scopes resource scopes ≡ true))
unfolding provision provision_checks
provision_sound service s client_id audience audiences scopes random now {created} h m =
    elim (Result-cases (Manager.require_active service.applications service.clients client_id)) [
      | inr (e, p) ↦ absurd (ground arith)
      | inl (client, p) ↦ (
        (client, p, ground arith),
        check_audiences_sound s.resources scopes audiences audience (ground arith) m,
      )
    ]

-- The record that `provision` adds, and what its rollback makes of it.
unfoldable pub new_owned : ServiceIdentityService → Text → Instant → IdentityStatus → Owned
new_owned service id now status = record {
  organization = service.organization;
  identity = record { id = id; kind = SubjectKind.service; status = status; created_at = now };
}
