-- ===== src/Examples/Codes.antt =====
-- Runs of the authorization codes, of Base64url and of the code flow.
use openproof.Base.{
  ◌<◌, insert, erase, all_of, any_of, ◌≡◌, refl, none, some, [], ◌∷◌, Text, text_key, bytes, lookup,
  arith,
}
use openproof.Foundation.{ok, fail, authentication_failed}
use openproof.Foundation.Encoding.{to_hex, hex_digit}
use openproof.Foundation.Base64.{
  to_base64_url, from_base64_url, trim_padding, decode_symbols, base64_symbol, base64_value,
}
use openproof.Foundation.Base64.Spelling.{from_base64_url-to_base64_url}
use openproof.Foundation.Base64.Canonical.{to_base64_url-from_base64_url}
use openproof.Security.{hmac_sha256, sha256}
use openproof.Session.Model.{Session}
use openproof.Application.Model as Applications
use openproof.Client.Manager.{require_active, application_permits}
use openproof.Client.Model.{
  Client, client_permits_authorization, permits_redirect, permits_scopes, permits_scope,
}
use openproof.Client.Model as Clients
use openproof.Client.Repository.{find_by_id}
use openproof.Oauth.Model.{
  AuthorizationRequest, AuthorizationCode, query, create, create_challenge, base64_url_character,
  expired_at,
}
use openproof.Oauth.Store.{digest_key, add, consume_bound}
use openproof.Oauth.Store.Once.{adds, run, spares}
use openproof.Oauth.Service.{
  AuthorizationService, AuthorizationGrant, verifier_character, challenge_for_verifier, digest,
  authorize, redeem,
}
use openproof.Oauth.Service.Redeeming.{
  challenge_for_verifier-accepts, redeem_sound, redeem-once, redeem-authorize,
}
use openproof.Examples.{example_crypto, session_of, fill, applications, clients}

abbrev three_bytes : Text
three_bytes = 0 ∷ 171 ∷ 255 ∷ 7 ∷ []

from_base64_url-to_base64_url_example : from_base64_url (to_base64_url three_bytes) ≡ ok three_bytes
from_base64_url-to_base64_url_example =
    from_base64_url-to_base64_url three_bytes
      (omega arith, (omega arith, (omega arith, (omega arith, tt))))

to_base64_url-from_base64_url_example : to_base64_url (77 ∷ 97 ∷ []) ≡ trim_padding (bytes "TWE=")
unfolding from_base64_url trim_padding decode_symbols base64_value
to_base64_url-from_base64_url_example =
    to_base64_url-from_base64_url (bytes "TWE=") (77 ∷ 97 ∷ []) refl

abbrev pub verifier : Text
verifier = bytes "abcdefghijklmnopqrstuvwxyz-0123456789.ABCDE"

challenge_for_verifier-accepts_example :
    challenge_for_verifier verifier ≡ ok (to_base64_url (fill 32 verifier))
unfolding all_of verifier_character sha256
challenge_for_verifier-accepts_example =
    challenge_for_verifier-accepts verifier {d = fill 32 verifier} refl refl refl refl

abbrev pub service : AuthorizationService
service = record {
  applications = applications;
  clients = clients;
  key = bytes "key";
  code_lifetime = 60000;
}

abbrev pub session : Session
session = session_of (bytes "s1") (bytes "d1")

abbrev pub request : AuthorizationRequest
request = record {
  client_id = bytes "app";
  redirect_uri = bytes "https://shop/cb";
  scopes = bytes "read" ∷ [];
  code_challenge = bytes "YWJjZGVmZ2hpamtsbW5vcHFyc3R1dnd4eXotMDEyMzQ";
  state = none;
  nonce = none;
  maximum_authentication_age = none;
  resource = none;
  response_mode = query;
}

abbrev pub grant : AuthorizationGrant
grant = record { code = bytes "opa_c1"; redirect_uri = bytes "https://shop/cb"; state = none }

verified : challenge_for_verifier verifier ≡ ok request.code_challenge
unfolding challenge_for_verifier all_of verifier_character sha256 create_challenge
    base64_url_character to_base64_url base64_symbol
verified = refl

abbrev pub issued : AuthorizationCode
issued = record {
  digest = fill 32 (bytes "opa_c1");
  client_id = bytes "app";
  identity = bytes "ada";
  redirect_uri = bytes "https://shop/cb";
  scopes = bytes "read" ∷ [];
  code_challenge = request.code_challenge;
  nonce = none;
  resource = none;
  provider = session.provider;
  assurance = session.assurance;
  strength = session.strength;
  authenticated_at = 1000;
  issued_at = 2000;
  expires_at = 62000;
}

abbrev key_of_code : Text
key_of_code = digest_key (fill 32 (bytes "opa_c1"))

pub authorized : (authorize service session request (ok (bytes "c1")) 2000 []).1 ≡ ok grant
unfolding authorize digest hmac_sha256 create add digest_key to_hex hex_digit insert require_active
    find_by_id client_permits_authorization application_permits Clients.permits_authorization
    Applications.permits_authorization permits_redirect permits_scopes permits_scope any_of all_of
authorized = refl

redeemed :
    (redeem service
      (bytes "opa_c1")
      (bytes "app")
      (bytes "https://shop/cb")
      verifier
      3000
      ((key_of_code, issued) ∷ [])).1
    ≡ ok issued
unfolding redeem digest hmac_sha256 consume_bound digest_key to_hex hex_digit erase expired_at
    require_active find_by_id client_permits_authorization application_permits
    Clients.permits_authorization Applications.permits_authorization challenge_for_verifier all_of
    verifier_character sha256 create_challenge base64_url_character to_base64_url base64_symbol
redeemed = refl

redeem_sound_example :
    (bytes "app" ≡ bytes "app")
    × (bytes "https://shop/cb" ≡ bytes "https://shop/cb")
    × (challenge_for_verifier verifier ≡ ok issued.code_challenge)
    × (3000 < 62000)
    × ((client : Client) × (require_active applications clients (bytes "app") ≡ ok client))
    × ((d : Text) × (digest service (bytes "opa_c1") ≡ ok d)
        × (lookup (digest_key d) ((key_of_code, issued) ∷ []) ≡ some issued)
        × (lookup
              (digest_key d)
              (redeem service
                (bytes "opa_c1")
                (bytes "app")
                (bytes "https://shop/cb")
                verifier
                3000
                ((key_of_code, issued) ∷ [])).0
            ≡ none))
redeem_sound_example =
    redeem_sound service (bytes "opa_c1") (bytes "app") (bytes "https://shop/cb") verifier 3000
      ((key_of_code, issued) ∷ []) {c = issued} redeemed

redeem-once_example :
    (redeem service (bytes "opa_c1") (bytes "app") (bytes "https://shop/cb") verifier 3001 (
      run
        (redeem service
          (bytes "opa_c1")
          (bytes "app")
          (bytes "https://shop/cb")
          verifier
          3000
          ((key_of_code, issued) ∷ [])).0
        (adds (record issued { digest = bytes "other" }) ∷ []))).1
    ≡ fail authentication_failed
unfolding spares all_of digest_key to_hex hex_digit digest hmac_sha256
redeem-once_example =
    redeem-once service (bytes "opa_c1") (bytes "app") (bytes "https://shop/cb") verifier
      (bytes "app") (bytes "https://shop/cb") verifier (fill 32 (bytes "opa_c1")) 3000 3001
      (adds (record issued { digest = bytes "other" }) ∷ []) ((key_of_code, issued) ∷ [])
      {c = issued} refl refl redeemed

redeem-authorize_example :
    (c : AuthorizationCode) × ((redeem service
        (bytes "opa_c1")
        (bytes "app")
        (bytes "https://shop/cb")
        verifier
        3000
        (authorize service session request (ok (bytes "c1")) 2000 []).0).1
      ≡ ok c)
    × (c.client_id ≡ bytes "app")
    × (c.identity ≡ bytes "ada")
    × (c.scopes ≡ bytes "read" ∷ [])
    × (c.authenticated_at ≡ 1000)
redeem-authorize_example =
    redeem-authorize service session request (bytes "c1") verifier 2000 3000 [] {grant = grant}
      authorized (omega arith) verified
