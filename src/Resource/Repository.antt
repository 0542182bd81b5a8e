-- ===== src/Resource/Repository.antt =====
-- src/resource/repository.cpp: resource servers by audience, service identities by client.
use openproof.Base.{
  Option, List, [], ◌∷◌, Text, text_key, Map, lookup, contains_key, insert, if◌then◌else◌,
}
use openproof.Foundation.{Result, ok, fail, Status, already_exists, not_found}
use openproof.Resource.Model.{ResourceServer, ServiceIdentity}

pub record ResourceRepository : Type 0 where
  pub resources : Map Text ResourceServer
  pub services : Map Text ServiceIdentity

unfoldable pub empty : ResourceRepository
empty = record { resources = []; services = [] }

unfoldable pub add : ResourceRepository → ResourceServer → ResourceRepository × Status
add r resource =
    if contains_key resource.audience r.resources
    then (r, fail already_exists)
    else (record r { resources = insert resource.audience resource r.resources }, ok tt)

unfoldable pub save : ResourceRepository → ResourceServer → ResourceRepository × Status
save r resource =
    if contains_key resource.audience r.resources
    then (record r { resources = insert resource.audience resource r.resources }, ok tt)
    else (r, fail not_found)

unfoldable pub find_by_audience : ResourceRepository → Text → Result (Option ResourceServer)
find_by_audience r audience = ok (lookup audience r.resources)

values : Map Text ResourceServer → List ResourceServer
values [] = []
values ((audience, resource) ∷ m) = resource ∷ values m

unfoldable pub list : ResourceRepository → Result (List ResourceServer)
unfolding values
list r = ok (values r.resources)

unfoldable pub save_service : ResourceRepository → ServiceIdentity → ResourceRepository × Status
save_service r service = (record r { services = insert service.client service r.services }, ok tt)

unfoldable pub service_for_client : ResourceRepository → Text → Result (Option ServiceIdentity)
service_for_client r client_id = ok (lookup client_id r.services)
