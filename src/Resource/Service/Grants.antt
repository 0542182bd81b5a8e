-- ===== src/Resource/Service/Grants.antt =====
-- src/resource/service.cpp: a service identity that was provisioned can be used.
use openproof.Base.{
  ◌≡◌, refl, true, List, [], ◌∷◌, ◌++◌, Text, text_key, bytes, eq_refl, arith, inl, inr,
  sort_unique, contains-sort_unique, lookup-insert, contains, all_of,
}
use openproof.Foundation.{Result, ok, fail, Instant, Result-cases}
use openproof.Client.Model.{Client, is_service}
use openproof.Client.Manager as Manager
use openproof.Identity.Subject.{
  Identity, SubjectKind, IdentityStatus, can_authenticate, change_status,
}
use openproof.Identity.Subject as Subject
use openproof.Identity.Repository.{add, find_by_id}
use openproof.Resource.Model.{
  ServiceIdentity, create_service, restore_service, normalized_audiences, normalized_scopes,
  permits_audience, permits_scopes,
}
use openproof.Resource.Repository.{ResourceRepository, save_service, service_for_client}
use openproof.Resource.Service.{
  ServiceIdentityService, Stores, provision_checks, provision, require_active,
}
use openproof.Resource.Service.Provisioning.{new_owned}

all_of-sorted :
    (wanted scopes : List Text)
    → all_of (λ v. contains v (sort_unique scopes)) wanted ≡ all_of (λ v. contains v scopes) wanted
unfolding all_of
all_of-sorted [] scopes = refl
all_of-sorted (v ∷ wanted) scopes =
    ground (arith, contains-sort_unique v scopes, all_of-sorted wanted scopes)

create_service-fields :
    (id client_id : Text) (audiences scopes : List Text) (now : Instant) {created : ServiceIdentity}
    → create_service id client_id audiences scopes now ≡ ok created
    → created ≡ record {
      identity = id;
      client = client_id;
      audiences = sort_unique audiences;
      scopes = sort_unique scopes;
      active = true;
      created_at = now;
      updated_at = now;
    }
unfolding create_service restore_service normalized_audiences normalized_scopes
create_service-fields id client_id audiences scopes now {created} h = ground arith

checks-client :
    (service : ServiceIdentityService) (r : ResourceRepository) (client_id : Text)
    (audiences scopes : List Text)
    → provision_checks service r client_id audiences scopes ≡ ok tt
    → (client : Client) × (Manager.require_active service.applications service.clients client_id
        ≡ ok client)
      × (is_service client.kind ≡ true)
unfolding provision_checks
checks-client service r client_id audiences scopes h =
    elim (Result-cases (Manager.require_active service.applications service.clients client_id)) [
      | inr (e, p) ↦ absurd (ground arith)
      | inl (client, p) ↦ (client, p, ground arith)
    ]

-- What was provisioned can be used: for each audience and each list of scopes within those that were
-- asked for, the service identity is found active.
pub require_active-provision :
    (service : ServiceIdentityService) (s : Stores) (client_id audience : Text)
    (audiences scopes wanted : List Text) (random : Result Text) (now : Instant)
    {created : ServiceIdentity}
    → (provision service s client_id audiences scopes random now).1 ≡ ok created
    → contains audience audiences ≡ true
    → all_of (λ v. contains v scopes) wanted ≡ true
    → require_active service
        (provision service s client_id audiences scopes random now).0
        client_id
        audience
        wanted
      ≡ ok created
unfolding provision require_active permits_audience permits_scopes save_service service_for_client
    find_by_id Subject.create add can_authenticate new_owned
require_active-provision service s client_id audience audiences scopes wanted (fail x) now {created}
      h a w =
    absurd (ground arith)
require_active-provision service s client_id audience audiences scopes wanted (ok fresh) now
      {created} h a w =
    let id : Text = bytes "opsi_" ++ fresh in
    elim (Result-cases (provision_checks service s.resources client_id audiences scopes)) [
      | inr (e, p) ↦ absurd (ground arith)
      | inl (u, p) ↦ elim (Result-cases (create_service id client_id audiences scopes now)) [
        | inr (e, q) ↦ absurd (ground arith)
        | inl (c, q) ↦
            let (client, active, kind) =
              checks-client service s.resources client_id audiences scopes p in
            ground (
              arith,
              create_service-fields id client_id audiences scopes now {created = c} q,
              eq_refl client_id,
              eq_refl service.organization,
              eq_refl id,
              contains-sort_unique audience audiences,
              all_of-sorted wanted scopes,
              lookup-insert client_id client_id c s.resources.services,
              lookup-insert id id (new_owned service id now IdentityStatus.active) s.identities,
            )
      ]
    ]
