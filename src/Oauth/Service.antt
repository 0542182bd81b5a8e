-- ===== src/Oauth/Service.antt =====
-- src/oauth/service.cpp: codes are handed out to a session and redeemed by a client. The state is the
-- store of the codes; the clients, which the service only reads, randomness and the clock are
-- arguments.
pub mod Redeeming
use openproof.Base.{
  ℕ, ◌+◌, Bool, true, false, not, ◌&&◌, ◌||◌, Option, none, some, List, [], ◌∷◌, ◌++◌, Text,
  text_key, bytes, ltb, leb, eqb, is_empty, length, all_of, if◌then◌else◌,
}
use openproof.Foundation.{
  Result, ok, fail, ErrorCode, Instant, Duration, refuse_if, invalid_argument,
  authentication_required, authentication_failed,
}
use openproof.Foundation as Plain
use openproof.Foundation.Exec.{Exec, pure, lift, ◌>>=◌, ◌>>◌}
use openproof.Foundation.Base64.{to_base64_url}
use openproof.Security.{Crypto, hmac_sha256, sha256}
use openproof.Session.Model.{Session}
use openproof.Application.Repository.{ApplicationRepository}
use openproof.Client.Model.{Client, permits_redirect, permits_scopes}
use openproof.Client.Repository.{ClientRepository}
use openproof.Client.Manager.{require_active}
use openproof.Oauth.Model.{AuthorizationRequest, AuthorizationCode, create, create_challenge}
use openproof.Oauth.Store.{AuthorizationCodeStore, add, consume_bound}

unfoldable pub create_key : Text → Result Text
create_key key = if ltb (length key) 32 then fail invalid_argument else ok key

-- The client manager that the service reads, its key and the lifetime of a code.
pub record AuthorizationService : Type 0 where
  pub applications : ApplicationRepository
  pub clients : ClientRepository
  pub key : Text
  pub code_lifetime : Duration

pub record AuthorizationGrant : Type 0 where
  pub code : Text
  pub redirect_uri : Text
  pub state : Option Text

unfoldable pub verifier_character : ℕ → Bool
verifier_character symbol =
    leb b'A' symbol && leb symbol b'Z'
    || leb b'a' symbol && leb symbol b'z'
    || leb b'0' symbol && leb symbol b'9'
    || eqb symbol b'-'
    || eqb symbol b'.'
    || eqb symbol b'_'
    || eqb symbol b'~'

is_stale : Session → Instant → Option Duration → Bool
is_stale session now none = false
is_stale session now (some age) = leb (session.authenticated_at + age) now

-- An error of the code becomes one of authentication.
or_invalid_grant {ℓ} : {A : Type ℓ} → Result A → Result A
or_invalid_grant (ok a) = ok a
or_invalid_grant (fail e) = fail authentication_failed

module _ ⦃crypto : Crypto⦄ where
  unfoldable pub challenge_for_verifier : Text → Result Text
  challenge_for_verifier verifier =
      if ltb (length verifier) 43
        || ltb 128 (length verifier)
        || not (all_of verifier_character verifier)
      then fail authentication_failed
      else Plain.◌>>=◌ (sha256 verifier) (λ digest. create_challenge (to_base64_url digest))

  module _ (service : AuthorizationService) where
    unfoldable pub digest : Text → Result Text
    digest code = if is_empty code then fail authentication_failed else hmac_sha256 service.key code

    -- The fields of the code that `authorize` makes; `create` puts in the expiry.
    pub code_of : Session → AuthorizationRequest → Text → Instant → AuthorizationCode
    code_of session request fingerprint now = record {
      digest = fingerprint;
      client_id = request.client_id;
      identity = session.identity;
      redirect_uri = request.redirect_uri;
      scopes = request.scopes;
      code_challenge = request.code_challenge;
      nonce = request.nonce;
      resource = request.resource;
      provider = session.provider;
      assurance = session.assurance;
      strength = session.strength;
      authenticated_at = session.authenticated_at;
      issued_at = now;
      expires_at = now;
    }

    unfoldable pub authorize :
        Session
        → AuthorizationRequest
        → (generated : Result Text) → Instant
        → Exec AuthorizationCodeStore AuthorizationGrant
    unfolding is_stale code_of
    authorize session request generated now = do
      client ← lift (require_active service.applications service.clients request.client_id)
      lift (
          refuse_if
            (not (permits_redirect client request.redirect_uri)
              || not (permits_scopes client request.scopes))
            invalid_argument)
      lift (
          refuse_if (is_stale session now request.maximum_authentication_age)
            authentication_required)
      raw ← lift generated
      fingerprint ← lift (digest (bytes "opa_" ++ raw))
      code ← lift (create (code_of session request fingerprint now) service.code_lifetime)
      (λ r. add r code)
      pure (record {
        code = bytes "opa_" ++ raw;
        redirect_uri = request.redirect_uri;
        state = request.state;
      })

    unfoldable pub redeem :
        (code client_id redirect_uri code_verifier : Text)
        → Instant
        → Exec AuthorizationCodeStore AuthorizationCode
    unfolding or_invalid_grant
    redeem code client_id redirect_uri code_verifier now = do
      client ←
          lift (or_invalid_grant (require_active service.applications service.clients client_id))
      challenge ← lift (or_invalid_grant (challenge_for_verifier code_verifier))
      fingerprint ← lift (digest code)
      (λ r. consume_bound r fingerprint now client_id redirect_uri challenge)
