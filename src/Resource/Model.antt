-- ===== src/Resource/Model.antt =====
-- src/resource/model.cpp: resource servers and service identities. A method that changes the object
-- returns it beside the status.
use openproof.Base.{
  Bool, true, false, not, ◌&&◌, ◌||◌, List, Text, text_key, ltb, is_empty, length, any_of, all_of,
  has_byte, sort_unique, contains, if◌then◌else◌,
}
use openproof.Foundation.{
  Result, ok, fail, Status, Instant, ◌>>=◌, invalid_argument, failed_precondition, succeeded,
}
use openproof.Client.Model.{create_scope}

unfoldable pub valid_audience : Text → Bool
valid_audience value =
    not (is_empty value)
    && not (ltb 2048 (length value))
    && not (has_byte b' ' value)
    && not (has_byte 9 value)
    && not (has_byte 13 value)
    && not (has_byte 10 value)

-- The search of the sorted list is by halves in the source.
unfoldable pub normalized_scopes : List Text → Result (List Text)
normalized_scopes scopes =
    if is_empty scopes || ltb 256 (length scopes)
    then fail invalid_argument
    else if any_of (λ value. not (succeeded (create_scope value))) scopes
    then fail invalid_argument
    else ok (sort_unique scopes)

unfoldable pub normalized_audiences : List Text → Result (List Text)
normalized_audiences audiences =
    if is_empty audiences
      || ltb 64 (length audiences)
      || any_of (λ value. not (valid_audience value)) audiences
    then fail invalid_argument
    else ok (sort_unique audiences)

pub data ResourceStatus : Type 0 where
  active suspended revoked : ResourceStatus

pub record ResourceServer : Type 0 where
  pub id : Text
  pub audience : Text
  pub display_name : Text
  pub scopes : List Text
  pub status : ResourceStatus
  pub created_at : Instant
  pub updated_at : Instant

-- The fields as they were stored, the scopes in any order.
unfoldable pub restore_resource : ResourceServer → Result ResourceServer
restore_resource r = normalized_scopes r.scopes >>= λ scopes.
    (if is_empty r.id
        || not (valid_audience r.audience)
        || is_empty r.display_name
        || ltb 256 (length r.display_name)
        || ltb r.updated_at r.created_at
      then fail invalid_argument
      else ok (record r { scopes = scopes }))

unfoldable pub create_resource :
    (id audience display_name : Text) (scopes : List Text) (now : Instant) → Result ResourceServer
create_resource id audience display_name scopes now = restore_resource (record {
  id = id;
  audience = audience;
  display_name = display_name;
  scopes = scopes;
  status = active;
  created_at = now;
  updated_at = now;
})

abbrev pub is_active : ResourceStatus → Bool
is_active active = true
is_active suspended = false
is_active revoked = false

abbrev pub is_revoked : ResourceStatus → Bool
is_revoked active = false
is_revoked suspended = false
is_revoked revoked = true

unfoldable pub resource_permits_scopes : ResourceServer → List Text → Bool
resource_permits_scopes r scopes = all_of (λ value. contains value r.scopes) scopes

unfoldable pub set_status : ResourceServer → ResourceStatus → Instant → ResourceServer × Status
set_status r status now =
    if is_revoked r.status && not (is_revoked status)
    then (r, fail failed_precondition)
    else (record r { status = status; updated_at = now }, ok tt)

pub record ServiceIdentity : Type 0 where
  pub identity : Text
  pub client : Text
  pub audiences : List Text
  pub scopes : List Text
  pub active : Bool
  pub created_at : Instant
  pub updated_at : Instant

unfoldable pub restore_service : ServiceIdentity → Result ServiceIdentity
restore_service s = normalized_audiences s.audiences >>= λ audiences.
    normalized_scopes s.scopes >>= λ scopes.
    (if is_empty s.identity || is_empty s.client || ltb s.updated_at s.created_at
      then fail invalid_argument
      else ok (record s { audiences = audiences; scopes = scopes }))

unfoldable pub create_service :
    (identity client : Text) (audiences scopes : List Text) (now : Instant) → Result ServiceIdentity
create_service identity client audiences scopes now = restore_service (record {
  identity = identity;
  client = client;
  audiences = audiences;
  scopes = scopes;
  active = true;
  created_at = now;
  updated_at = now;
})

unfoldable pub permits_audience : ServiceIdentity → Text → Bool
permits_audience s audience = contains audience s.audiences

unfoldable pub permits_scopes : ServiceIdentity → List Text → Bool
permits_scopes s scopes = all_of (λ value. contains value s.scopes) scopes

unfoldable pub deactivate : ServiceIdentity → Instant → ServiceIdentity × Status
deactivate s now = (record s { active = false; updated_at = now }, ok tt)

unfoldable pub activate : ServiceIdentity → Instant → ServiceIdentity × Status
activate s now = (record s { active = true; updated_at = now }, ok tt)
