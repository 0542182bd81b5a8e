-- ===== src/Resource/Service.antt =====
-- src/resource/service.cpp: the identities of services. The state is the identity repository and the
-- resource repository; the clients, which the service only reads, randomness and the clock are
-- arguments.
pub mod Provisioning
pub mod Grants
use openproof.Base.{
  Bool, true, false, not, ◌||◌, Option, none, some, is_some, List, [], ◌∷◌, ◌++◌, Text, bytes,
  if◌then◌else◌,
}
use openproof.Foundation.{
  Result, ok, fail, ErrorCode, Status, Instant, ◌>>=◌, ◌>>◌, refuse_if, permission_denied,
  already_exists, not_found, failed_precondition, authentication_failed,
}
use openproof.Application.Repository.{ApplicationRepository}
use openproof.Client.Model.{Client, is_service}
use openproof.Client.Repository.{ClientRepository}
use openproof.Client.Manager as Manager
use openproof.Identity.Subject.{Identity, SubjectKind, IdentityStatus, can_authenticate}
use openproof.Identity.Subject as Subject
use openproof.Identity.Repository.{IdentityRepository, find_by_id, change_status_of}
use openproof.Identity.Repository as Identities
use openproof.Resource.Model.{
  ResourceServer, ServiceIdentity, create_service, is_active, resource_permits_scopes,
  permits_audience, permits_scopes, activate, deactivate,
}
use openproof.Resource.Repository.{
  ResourceRepository, find_by_audience, save_service, service_for_client,
}

-- The client manager that the service reads, and its organization.
pub record ServiceIdentityService : Type 0 where
  pub organization : Text
  pub applications : ApplicationRepository
  pub clients : ClientRepository

pub record Stores : Type 0 where
  pub identities : IdentityRepository
  pub resources : ResourceRepository

covers : List Text → Option ResourceServer → Bool
covers scopes none = false
covers scopes (some resource) =
    if is_active resource.status then resource_permits_scopes resource scopes else false

-- The loop over the audiences, which stops at the first that is refused.
unfoldable pub check_audiences : ResourceRepository → List Text → List Text → Status
unfolding covers
check_audiences r scopes [] = ok tt
check_audiences r scopes (audience ∷ audiences) =
    let rest = check_audiences r scopes audiences in
    find_by_audience r audience >>= λ found.
    (if not (covers scopes found) then fail permission_denied else rest)

-- A new identity is marked as deleted when the service identity is not stored.
mark_deleted : ServiceIdentityService → Stores → Text → Stores
mark_deleted service s id = record s {
  identities = (change_status_of s.identities service.organization id IdentityStatus.deleted).0;
}

stored :
    ServiceIdentityService
    → Stores
    → Text
    → ServiceIdentity
    → ResourceRepository × Status
    → Stores × Result ServiceIdentity
stored service s id created (resources, ok u) = (record s { resources = resources }, ok created)
stored service s id created (resources, fail e) =
    (mark_deleted service (record s { resources = resources }) id, fail e)

keep :
    ServiceIdentityService
    → Stores
    → Text
    → Result ServiceIdentity
    → Stores × Result ServiceIdentity
unfolding mark_deleted stored
keep service s id (fail e) = (mark_deleted service s id, fail e)
keep service s id (ok created) = stored service s id created (save_service s.resources created)

-- The identity was added, or it was not.
with_identity :
    ServiceIdentityService
    → Stores
    → Text
    → Result ServiceIdentity
    → IdentityRepository × Status
    → Stores × Result ServiceIdentity
with_identity service s id created (identities, fail e) =
    (record s { identities = identities }, fail e)
with_identity service s id created (identities, ok u) =
    keep service (record s { identities = identities }) id created

with_subject :
    ServiceIdentityService
    → Stores
    → Text
    → Result ServiceIdentity
    → Result Identity
    → Stores × Result ServiceIdentity
unfolding with_identity keep
with_subject service s id created (fail e) = (s, fail e)
with_subject service s id created (ok identity) =
    with_identity service s id created (Identities.add s.identities service.organization identity)

after_checks :
    ServiceIdentityService
    → Stores
    → (client_id : Text) (audiences scopes : List Text) → Instant
    → Result Text
    → Stores × Result ServiceIdentity
unfolding with_subject
after_checks service s client_id audiences scopes now (fail e) = (s, fail e)
after_checks service s client_id audiences scopes now (ok fresh) =
    with_subject service s (bytes "opsi_" ++ fresh)
      (create_service (bytes "opsi_" ++ fresh) client_id audiences scopes now)
      (Subject.create (bytes "opsi_" ++ fresh) SubjectKind.service now)

-- The checks of `provision` before it draws an identifier.
unfoldable pub provision_checks :
    ServiceIdentityService
    → ResourceRepository
    → (client_id : Text) (audiences scopes : List Text) → Status
provision_checks service r client_id audiences scopes = do
  registered ← Manager.require_active service.applications service.clients client_id
  refuse_if (not (is_service registered.kind)) failed_precondition
  check_audiences r scopes audiences
  existing ← service_for_client r client_id
  refuse_if (is_some existing) already_exists

checked :
    ServiceIdentityService
    → Stores
    → (client_id : Text) (audiences scopes : List Text) → Instant
    → Result Text
    → Status
    → Stores × Result ServiceIdentity
checked service s client_id audiences scopes now random (fail e) = (s, fail e)
checked service s client_id audiences scopes now random (ok u) =
    after_checks service s client_id audiences scopes now random

unfoldable pub provision :
    ServiceIdentityService
    → Stores
    → (client_id : Text) (audiences scopes : List Text) → Result Text
    → Instant
    → Stores × Result ServiceIdentity
unfolding checked after_checks
provision service s client_id audiences scopes random now =
    checked service s client_id audiences scopes now random
      (provision_checks service s.resources client_id audiences scopes)

permitted : Text → List Text → Option ServiceIdentity → Result ServiceIdentity
permitted audience scopes none = fail permission_denied
permitted audience scopes (some s) =
    if not s.active || not (permits_audience s audience) || not (permits_scopes s scopes)
    then fail permission_denied
    else ok s

is_service_kind : SubjectKind → Bool
is_service_kind SubjectKind.service = true
is_service_kind SubjectKind.human = false
is_service_kind SubjectKind.workload = false
is_service_kind SubjectKind.organization = false

subject_active : Option Identity → Bool
subject_active none = false
subject_active (some i) = if can_authenticate i then is_service_kind i.kind else false

unfoldable pub require_active :
    ServiceIdentityService
    → Stores
    → (client_id audience : Text) (scopes : List Text) → Result ServiceIdentity
unfolding permitted is_service_kind subject_active
require_active service s client_id audience scopes = do
  registered ← Manager.require_active service.applications service.clients client_id
  refuse_if (not (is_service registered.kind)) authentication_failed
  found ← service_for_client s.resources client_id
  granted ← permitted audience scopes found
  identity ← find_by_id s.identities service.organization granted.identity
  refuse_if (not (subject_active identity)) permission_denied
  ok granted

required : Option ServiceIdentity → Result ServiceIdentity
required none = fail not_found
required (some s) = ok s

unfoldable pub find : ResourceRepository → Text → Result ServiceIdentity
unfolding required
find r client_id = service_for_client r client_id >>= required

saved : ResourceRepository → ServiceIdentity → ResourceRepository × Result ServiceIdentity
saved r s = ((save_service r s).0, (save_service r s).1 >> ok s)

switched :
    ResourceRepository
    → Bool
    → Instant
    → Result ServiceIdentity
    → ResourceRepository × Result ServiceIdentity
switched r enabled now (fail e) = (r, fail e)
switched r true now (ok s) = saved r (activate s now).0
switched r false now (ok s) = saved r (deactivate s now).0

unfoldable pub set_active :
    ResourceRepository → Text → Bool → Instant → ResourceRepository × Result ServiceIdentity
unfolding saved switched
set_active r client_id enabled now = switched r enabled now (find r client_id)
