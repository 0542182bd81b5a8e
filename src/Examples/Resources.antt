-- ===== src/Examples/Resources.antt =====
-- Runs of the provisioning of services.
use openproof.Base.{
  insert, contains, all_of, any_of, has_byte, sort_unique, place, ◌≡◌, refl, true, [], ◌∷◌,
  text_key, bytes,
}
use openproof.Foundation.{ok}
use openproof.Application.Model as Applications
use openproof.Client.Manager.{require_active, application_permits}
use openproof.Client.Model.{client_permits_authorization, create_scope}
use openproof.Client.Model as Clients
use openproof.Client.Repository as ClientStore
use openproof.Identity.Subject.{Identity, SubjectKind, IdentityStatus, active}
use openproof.Identity.Subject as Subject
use openproof.Identity.Repository.{add, find_by_id}
use openproof.Resource.Model.{
  ResourceServer, ServiceIdentity, create_service, restore_service, normalized_audiences,
  normalized_scopes, valid_audience, resource_permits_scopes,
}
use openproof.Resource.Model as Model
use openproof.Resource.Repository.{find_by_audience, save_service, service_for_client}
use openproof.Resource.Service.{
  ServiceIdentityService, Stores, check_audiences, provision_checks, provision,
}
use openproof.Resource.Service as Service
use openproof.Resource.Service.Grants.{require_active-provision}
use openproof.Examples.{applications, clients}

abbrev service : ServiceIdentityService
service = record { organization = bytes "acme"; applications = applications; clients = clients }

abbrev api : ResourceServer
api = record {
  id = bytes "opr_1";
  audience = bytes "api";
  display_name = bytes "API";
  scopes = bytes "read" ∷ bytes "write" ∷ [];
  status = Model.active;
  created_at = 1;
  updated_at = 1;
}

abbrev ada : Identity
ada = record { id = bytes "ada"; kind = SubjectKind.human; status = active; created_at = 1 }

abbrev stores : Stores
stores = record {
  identities = (bytes "ada", record { organization = bytes "acme"; identity = ada }) ∷ [];
  resources = record { resources = (bytes "api", api) ∷ []; services = [] };
}

abbrev robot_identity : ServiceIdentity
robot_identity = record {
  identity = bytes "opsi_1";
  client = bytes "robot";
  audiences = bytes "api" ∷ [];
  scopes = bytes "read" ∷ [];
  active = true;
  created_at = 5;
  updated_at = 5;
}

require_active-provision_example :
    Service.require_active service
      (provision service stores
        (bytes "robot")
        (bytes "api" ∷ [])
        (bytes "read" ∷ [])
        (ok (bytes "1"))
        5).0
      (bytes "robot")
      (bytes "api")
      (bytes "read" ∷ [])
    ≡ ok robot_identity
unfolding provision provision_checks require_active application_permits ClientStore.find_by_id
    client_permits_authorization Clients.permits_authorization Applications.permits_authorization
    check_audiences find_by_audience service_for_client resource_permits_scopes contains all_of
    any_of has_byte create_scope valid_audience create_service restore_service normalized_audiences
    normalized_scopes sort_unique place Subject.create add save_service insert
require_active-provision_example =
    require_active-provision service stores (bytes "robot") (bytes "api") (bytes "api" ∷ [])
      (bytes "read" ∷ []) (bytes "read" ∷ []) (ok (bytes "1")) 5 {created = robot_identity} refl
      refl refl
