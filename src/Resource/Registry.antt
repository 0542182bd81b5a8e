-- ===== src/Resource/Registry.antt =====
-- src/resource/service.cpp: the registry of the resource servers. The state is the repository;
-- randomness and the clock are arguments.
use openproof.Base.{Option, none, some, List, ◌++◌, Text, bytes, if◌then◌else◌}
use openproof.Foundation.{Result, ok, fail, Instant, permission_denied, not_found}
use openproof.Foundation.Exec.{Exec, pure, lift, ◌>>=◌, ◌>>◌}
use openproof.Resource.Model.{
  ResourceServer, ResourceStatus, create_resource, is_active, set_status,
}
use openproof.Resource.Repository.{ResourceRepository, add, save, find_by_audience}

unfoldable pub register_resource :
    (audience display_name : Text) (scopes : List Text) (random : Result Text) (now : Instant)
    → Exec ResourceRepository ResourceServer
register_resource audience display_name scopes random now = do
  fresh ← lift random
  resource ← lift (create_resource (bytes "opr_" ++ fresh) audience display_name scopes now)
  (λ r. add r resource)
  pure resource

active_found : Result (Option ResourceServer) → Result ResourceServer
active_found (fail e) = fail e
active_found (ok none) = fail permission_denied
active_found (ok (some resource)) =
    if is_active resource.status then ok resource else fail permission_denied

unfoldable pub require_active : ResourceRepository → Text → Result ResourceServer
unfolding active_found
require_active r audience = active_found (find_by_audience r audience)

found : Result (Option ResourceServer) → Result ResourceServer
found (fail e) = fail e
found (ok none) = fail not_found
found (ok (some resource)) = ok resource

unfoldable pub change_status :
    Text → ResourceStatus → Instant → Exec ResourceRepository ResourceServer
unfolding found
change_status audience status now = do
  resource ← (λ r. (r, found (find_by_audience r audience)))
  lift ((set_status resource status now).1)
  (λ r. save r (set_status resource status now).0)
  pure ((set_status resource status now).0)
