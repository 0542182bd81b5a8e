-- ===== src/Examples/Flows.antt =====
-- Runs of the code flow from a session to an access token, and of the grants for services.
use openproof.Base.{
  insert, erase, contains, all_of, any_of, sort_unique, place, ◌≡◌, refl, true, none, [], ◌∷◌,
  text_key, bytes, arith,
}
use openproof.Foundation.{ok}
use openproof.Foundation.Encoding.{to_hex, hex_digit}
use openproof.Foundation.Base64.{to_base64_url, base64_symbol}
use openproof.Security.{hmac_sha256, sha256}
use openproof.Application.Model as Applications
use openproof.Client.Manager.{require_active, application_permits}
use openproof.Client.Model.{
  Client, is_service, client_permits_authorization, permits_redirect, permits_scopes, permits_scope,
}
use openproof.Client.Model as Clients
use openproof.Client.Repository.{find_by_id}
use openproof.Resource.Model.{ServiceIdentity, permits_audience}
use openproof.Resource.Model as Resources
use openproof.Oauth.Model.{create, create_challenge, base64_url_character, expired_at}
use openproof.Oauth.Store.{digest_key, add, consume_bound}
use openproof.Oauth.Service.{
  AuthorizationService, verifier_character, challenge_for_verifier, authorize, redeem,
}
use openproof.Oauth.Service as Oauth
use openproof.Token.Model.{TokenContext, TokenClaims, token_context, access_usable_at}
use openproof.Token.Grant.{
  TokenService, TokenGrant, MachineTokenGrant, access_record, refresh_record, optional_list,
}
use openproof.Token.Store.{empty, store_initial, store_access_only, find_access}
use openproof.Token.Service.{issue, make_initial, introspect, digest}
use openproof.Token.Service.CodeFlow.{introspect-redeem}
use openproof.Token.Service.Machine.{
  issue_client_credentials, machine_context, introspect-issue_client_credentials,
}
use openproof.Examples.{example_crypto, applications, clients}
use openproof.Examples.Codes.{verifier, service, session, request, grant, issued, authorized}

abbrev tokens : TokenService
tokens = record {
  applications = applications;
  clients = clients;
  key = bytes "key";
  policy = record { access_lifetime = 600; refresh_lifetime = 9000 };
}

abbrev context : TokenContext
context = record {
  client = bytes "app";
  identity = bytes "ada";
  provider = session.provider;
  assurance = session.assurance;
  strength = session.strength;
  scopes = bytes "read" ∷ [];
  audiences = [];
  sender_constraint = none;
  authenticated_at = 1000;
}

abbrev granted : TokenGrant
granted = record {
  access_token = bytes "opa_a";
  refresh_token = bytes "opr_r";
  expires_in = 600;
  context = context;
}

abbrev claims : TokenClaims
claims = record { is_active = true; context = context; issued_at = 3100; expires_at = 3700 }

introspect-redeem_example :
    (context.identity ≡ session.identity)
    × (context.authenticated_at ≡ session.authenticated_at)
    × (context.client ≡ request.client_id)
    × (context.scopes ≡ sort_unique request.scopes)
    × (bytes "app" ≡ request.client_id)
    × (bytes "https://shop/cb" ≡ request.redirect_uri)
    × (challenge_for_verifier verifier ≡ ok request.code_challenge)
unfolding authorize redeem Oauth.digest digest hmac_sha256 create add consume_bound expired_at erase
    digest_key to_hex hex_digit insert require_active find_by_id client_permits_authorization
    application_permits Clients.permits_authorization Applications.permits_authorization
    permits_redirect permits_scopes permits_scope any_of all_of challenge_for_verifier
    verifier_character sha256 create_challenge base64_url_character to_base64_url base64_symbol
    issue make_initial introspect find_access access_usable_at store_initial access_record
    refresh_record token_context sort_unique place optional_list empty
introspect-redeem_example =
    introspect-redeem service tokens session request (bytes "c1") (bytes "app")
      (bytes "https://shop/cb") verifier none (bytes "f") (bytes "a") (bytes "r") 2000 3000 3100
      3200 [] empty {handed = grant} {c = issued} {granted = granted} {claims = claims} authorized
      refl refl refl

abbrev robot_identity : ServiceIdentity
robot_identity = record {
  identity = bytes "opsi_1";
  client = bytes "robot";
  audiences = bytes "api" ∷ [];
  scopes = bytes "read" ∷ bytes "write" ∷ [];
  active = true;
  created_at = 1;
  updated_at = 1;
}

abbrev machine_granted : MachineTokenGrant
machine_granted = record {
  access_token = bytes "opa_a";
  expires_in = 600;
  context = machine_context robot_identity (bytes "api") (bytes "read" ∷ []) none 1000;
}

introspect-issue_client_credentials_example :
    (true ≡ true)
    × (permits_audience robot_identity (bytes "api") ≡ true)
    × (Resources.permits_scopes robot_identity (bytes "read" ∷ []) ≡ true)
    × ((client : Client) × (require_active applications clients (bytes "robot") ≡ ok client)
        × (is_service client.kind ≡ true))
    × ((found : TokenClaims) × ((introspect tokens
            (bytes "opa_a")
            1500
            (issue_client_credentials tokens robot_identity
              (bytes "api")
              (bytes "read" ∷ [])
              none
              (ok (bytes "f"))
              (ok (bytes "a"))
              1000
              empty).0).1
          ≡ ok found)
        × (found.context.identity ≡ bytes "opsi_1")
        × (found.context.client ≡ bytes "robot")
        × (found.context.audiences ≡ bytes "api" ∷ [])
        × (found.context.scopes ≡ sort_unique (bytes "read" ∷ [])))
unfolding issue_client_credentials digest hmac_sha256 require_active find_by_id
    client_permits_authorization application_permits Clients.permits_authorization
    Applications.permits_authorization permits_audience Resources.permits_scopes contains all_of
    store_access_only to_hex hex_digit empty access_record
introspect-issue_client_credentials_example =
    introspect-issue_client_credentials tokens robot_identity (bytes "api") (bytes "read" ∷ []) none
      (bytes "f") (bytes "a") 1000 1500 empty {grant = machine_granted} refl (omega arith)
