-- ===== src/Client/Model.antt =====
-- src/client/model.cpp: scopes, redirect URIs and clients. A method that changes the client returns
-- it beside the status.
use openproof.Base.{
  Bool, true, false, not, ◌&&◌, ◌||◌, Option, some, List, Text, text_key, ◌==◌, ltb, leb, eqb,
  is_empty, is_some, length, any_of, all_of, has_byte, sort_by, has_adjacent, if◌then◌else◌,
}
use openproof.Foundation.{
  Result, ok, fail, Status, Instant, ◌>>=◌, invalid_argument, failed_precondition, internal,
}
use openproof.Application.Model.{valid_display_name}
use openproof.Client.Uri.{valid_https, loopback_http, same_native_loopback_redirect}

pub data ClientKind : Type 0 where
  web native browser service : ClientKind

unfoldable pub client_is_public : ClientKind → Bool
client_is_public native = true
client_is_public browser = true
client_is_public web = false
client_is_public service = false

abbrev pub is_native : ClientKind → Bool
is_native native = true
is_native browser = false
is_native web = false
is_native service = false

abbrev pub is_service : ClientKind → Bool
is_service service = true
is_service native = false
is_service browser = false
is_service web = false

pub data ClientStatus : Type 0 where
  active suspended revoked : ClientStatus

unfoldable pub client_permits_authorization : ClientStatus → Bool
client_permits_authorization active = true
client_permits_authorization suspended = false
client_permits_authorization revoked = false

-- `Scope::create`: a scope is its value.
unfoldable pub create_scope : Text → Result Text
create_scope value =
    if is_empty value || ltb 128 (length value)
    then fail invalid_argument
    else if any_of
        (λ byte. not (eqb byte 33 || leb 35 byte && leb byte 91 || leb 93 byte && leb byte 126))
        value
    then fail invalid_argument
    else ok value

-- `RedirectUri::create`: a redirect URI is its value.
unfoldable pub create_redirect_uri : Text → ClientKind → Result Text
create_redirect_uri value kind =
    if is_empty value
      || ltb 2048 (length value)
      || has_byte b'#' value
      || has_byte 92 value
      || any_of (λ byte. leb byte 32 || eqb byte 127) value
    then fail invalid_argument
    else if not (valid_https value) && not (is_native kind && loopback_http value)
    then fail invalid_argument
    else if is_service kind
    then fail invalid_argument
    else ok value

pub record Client : Type 0 where
  pub id : Text
  pub application_id : Text
  pub display_name : Text
  pub kind : ClientKind
  pub status : ClientStatus
  pub redirect_uris : List Text
  pub scopes : List Text
  pub secret_digest : Option Text
  pub created_at : Instant
  pub updated_at : Instant

-- A service client has no redirect, any other has up to 32; public clients have no secret.
wrong_redirects : ClientKind → List Text → Option Text → Bool
wrong_redirects kind redirect_uris secret_digest =
    if is_service kind
    then not (is_empty redirect_uris) || not (is_some secret_digest)
    else is_empty redirect_uris || ltb 32 (length redirect_uris)

unfoldable pub create :
    (id application_id display_name : Text) (kind : ClientKind) (redirect_uris scopes : List Text)
    (secret_digest : Option Text) (created_at : Instant)
    → Result Client
unfolding wrong_redirects
create id application_id display_name kind redirect_uris scopes secret_digest created_at =
    if is_empty id
      || is_empty application_id
      || not (valid_display_name display_name)
      || is_empty scopes
      || ltb 64 (length scopes)
    then fail invalid_argument
    else if wrong_redirects kind redirect_uris secret_digest
    then fail invalid_argument
    else if client_is_public kind && is_some secret_digest
    then fail invalid_argument
    else if not (client_is_public kind) && not (is_some secret_digest)
    then fail invalid_argument
    else if has_adjacent (λ r. r) (sort_by (λ r. r) redirect_uris)
    then fail invalid_argument
    else if has_adjacent (λ s. s) (sort_by (λ s. s) scopes)
    then fail invalid_argument
    else ok (record {
      id = id;
      application_id = application_id;
      display_name = display_name;
      kind = kind;
      status = active;
      redirect_uris = sort_by (λ r. r) redirect_uris;
      scopes = sort_by (λ s. s) scopes;
      secret_digest = secret_digest;
      created_at = created_at;
      updated_at = created_at;
    })

restored : ClientStatus → Instant → Instant → Client → Result Client
restored status created_at updated_at c =
    if ltb updated_at created_at
    then fail internal
    else ok (record c { status = status; updated_at = updated_at })

unfoldable pub restore :
    (id application_id display_name : Text) (kind : ClientKind) (status : ClientStatus)
    (redirect_uris scopes : List Text) (secret_digest : Option Text)
    (created_at updated_at : Instant)
    → Result Client
unfolding restored
restore id application_id display_name kind status redirect_uris scopes secret_digest created_at
      updated_at =
    create id application_id display_name kind redirect_uris scopes secret_digest created_at
    >>= λ c. restored status created_at updated_at c

unfoldable pub is_public : Client → Bool
is_public c = client_is_public c.kind

unfoldable pub permits_authorization : Client → Bool
permits_authorization c = client_permits_authorization c.status

unfoldable pub permits_redirect : Client → Text → Bool
permits_redirect c redirect_uri =
    any_of
      (λ item.
        (item == redirect_uri)
        || is_native c.kind && same_native_loopback_redirect item redirect_uri)
      c.redirect_uris

unfoldable pub permits_scope : Client → Text → Bool
permits_scope c scope = any_of (λ item. item == scope) c.scopes

unfoldable pub permits_scopes : Client → List Text → Bool
permits_scopes c requested = all_of (λ scope. permits_scope c scope) requested

abbrev pub is_active : ClientStatus → Bool
is_active active = true
is_active suspended = false
is_active revoked = false

abbrev pub is_suspended : ClientStatus → Bool
is_suspended active = false
is_suspended suspended = true
is_suspended revoked = false

abbrev pub is_revoked : ClientStatus → Bool
is_revoked active = false
is_revoked suspended = false
is_revoked revoked = true

unfoldable pub suspend : Client → Instant → Client × Status
suspend c now =
    if not (is_active c.status) || ltb now c.updated_at
    then (c, fail failed_precondition)
    else (record c { status = suspended; updated_at = now }, ok tt)

unfoldable pub activate : Client → Instant → Client × Status
activate c now =
    if not (is_suspended c.status) || ltb now c.updated_at
    then (c, fail failed_precondition)
    else (record c { status = active; updated_at = now }, ok tt)

unfoldable pub revoke : Client → Instant → Client × Status
revoke c now =
    if is_revoked c.status || ltb now c.updated_at
    then (c, fail failed_precondition)
    else (record c { status = revoked; updated_at = now }, ok tt)

unfoldable pub replace_secret : Client → Text → Instant → Client × Status
replace_secret c digest now =
    if is_public c || is_revoked c.status || ltb now c.updated_at
    then (c, fail failed_precondition)
    else (record c { secret_digest = some digest; updated_at = now }, ok tt)
