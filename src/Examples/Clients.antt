-- ===== src/Examples/Clients.antt =====
-- Runs of the client manager and of the provisioning of services.
use openproof.Base.{
  ◌⊎◌, insert, all_of, any_of, sort_by, has_adjacent, has_byte, strip_prefix, take_until,
  drop_until, split_first, split_last, insert_by, ◌≡◌, refl, some, [], ◌∷◌, Text, text_key, bytes,
}
use openproof.Foundation.{ok, fail, authentication_failed}
use openproof.Security.{hmac_sha256}
use openproof.Application.Model as Applications
use openproof.Application.Model.{valid_display_name}
use openproof.Client.Uri.Spelling.{IsHttpsUri, IsLoopbackUri}
use openproof.Client.Uri.{authority, valid_https}
use openproof.Client.Model.{
  Client, web, create, create_scope, create_redirect_uri, client_is_public, permits_redirect,
}
use openproof.Client.Model as Model
use openproof.Client.Repository.{add, find_by_id, save, same_kind}
use openproof.Client.Manager.{
  ClientRegistration, application_permits, parse_each, digest, require, register_client, revoke,
  authenticate,
}
use openproof.Client.Manager.Revocation.{
  Call, registers, activates, rotates, run, step, authenticate-revoke,
}
use openproof.Client.Manager.Registering.{authenticate-register_client}
use openproof.Client.Manager.Redirects.{permits_redirect-register_client}
use openproof.Examples.{example_crypto, fill, applications, app}

abbrev key : Text
key = bytes "key"

abbrev registration : ClientRegistration
registration = record {
  client = record app {
    id = bytes "opc_c";
    secret_digest = some (fill 32 (bytes "ops_s"));
    created_at = 10;
    updated_at = 10;
  };
  secret = some (bytes "ops_s");
}

registered :
    (register_client key applications
      (bytes "shop")
      (bytes "App")
      web
      (bytes "https://shop/cb" ∷ [])
      (bytes "read" ∷ bytes "write" ∷ [])
      (ok (bytes "c"))
      (ok (bytes "s"))
      10
      []).1
    ≡ ok registration
unfolding register_client application_permits parse_each create_redirect_uri create_scope
    client_is_public digest hmac_sha256 create add Applications.permits_authorization
    valid_display_name has_byte any_of all_of authority valid_https strip_prefix take_until
    drop_until split_first split_last sort_by insert_by has_adjacent insert
registered = refl

authenticate-register_client_example :
    authenticate key applications
      (register_client key applications
        (bytes "shop")
        (bytes "App")
        web
        (bytes "https://shop/cb" ∷ [])
        (bytes "read" ∷ bytes "write" ∷ [])
        (ok (bytes "c"))
        (ok (bytes "s"))
        10
        []).0
      (bytes "opc_c")
      (some (bytes "ops_s"))
    ≡ ok registration.client
authenticate-register_client_example =
    authenticate-register_client key applications (bytes "shop") (bytes "App") web
      (bytes "https://shop/cb" ∷ []) (bytes "read" ∷ bytes "write" ∷ []) (ok (bytes "c"))
      (ok (bytes "s")) 10 [] {registration = registration} registered

permits_redirect-register_client_example :
    IsHttpsUri (bytes "https://shop/cb")
    ⊎ ((web ≡ Model.native) × IsLoopbackUri (bytes "https://shop/cb"))
unfolding permits_redirect any_of
permits_redirect-register_client_example =
    permits_redirect-register_client key applications (bytes "shop") (bytes "App") web
      (bytes "https://shop/cb" ∷ []) (bytes "read" ∷ bytes "write" ∷ []) (ok (bytes "c"))
      (ok (bytes "s")) 10 [] (bytes "https://shop/cb") {registration = registration} registered refl

abbrev registering : Call
registering =
    registers applications (bytes "shop") (bytes "App") web (bytes "https://shop/cb" ∷ [])
      (bytes "read" ∷ bytes "write" ∷ []) (ok (bytes "c")) (ok (bytes "s")) 10

authenticate-revoke_example :
    authenticate key applications
      (run key
        (revoke (bytes "opc_c") 20 (run key [] (registering ∷ []))).0
        (activates (bytes "opc_c") 30 ∷ rotates (bytes "opc_c") (ok (bytes "t")) 31 ∷ []))
      (bytes "opc_c")
      (some (bytes "ops_s"))
    ≡ fail authentication_failed
unfolding run step revoke require find_by_id Model.revoke save same_kind register_client
    application_permits parse_each create_redirect_uri create_scope client_is_public digest
    hmac_sha256 create add Applications.permits_authorization valid_display_name has_byte any_of
    all_of authority valid_https strip_prefix take_until drop_until split_first split_last sort_by
    insert_by has_adjacent insert
authenticate-revoke_example =
    authenticate-revoke key (registering ∷ [])
      (activates (bytes "opc_c") 30 ∷ rotates (bytes "opc_c") (ok (bytes "t")) 31 ∷ []) applications
      (bytes "opc_c") 20 (some (bytes "ops_s"))
      {c = record registration.client { status = Model.revoked; updated_at = 20 }} refl
