-- ===== src/Oauth/Pushed/Service.antt =====
-- src/oauth/par.cpp: the service over the store. The state is the store; randomness and the clock are
-- arguments, and so is the lifetime that the service keeps.
use openproof.Base.{◌++◌, ◌!=◌, Text, text_key, bytes, if◌then◌else◌}
use openproof.Foundation.{Result, ok, fail, Instant, Duration, authentication_failed}
use openproof.Foundation.Exec.{Exec, pure, lift, ◌>>=◌, ◌>>◌}
use openproof.Security.{Crypto, sha256}
use openproof.Oauth.Model.{AuthorizationRequest}
use openproof.Oauth.Pushed.Store.{PushedAuthorizationRequest, PushedStore, create, add}
use openproof.Oauth.Pushed.Store as Store

pub record PushedAuthorizationGrant : Type 0 where
  pub request_uri : Text
  pub expires_in : Duration

-- Every failure to find the request is one of authentication, another client's request too.
found_for :
    (expected_client : Text) → Result PushedAuthorizationRequest → Result AuthorizationRequest
found_for expected_client (fail e) = fail authentication_failed
found_for expected_client (ok p) =
    if p.request.client_id != expected_client then fail authentication_failed else ok p.request

module _ ⦃crypto : Crypto⦄ where
  unfoldable pub digest : Text → Result Text
  digest request_uri = sha256 request_uri

  unfoldable pub push :
      (lifetime : Duration) (request : AuthorizationRequest) (random : Result Text) (now : Instant)
      → Exec PushedStore PushedAuthorizationGrant
  push lifetime request random now = lift random >>= λ fresh.
      lift (digest (bytes "urn:ietf:params:oauth:request_uri:opar_" ++ fresh)) >>= λ fingerprint.
      lift (create fingerprint request now lifetime) >>= λ p.
      (λ r. add r p)
      >> pure (record {
        request_uri = bytes "urn:ietf:params:oauth:request_uri:opar_" ++ fresh;
        expires_in = lifetime;
      })

  found_by :
      PushedStore → (expected_client : Text) → Instant → Result Text → Result AuthorizationRequest
  unfolding found_for
  found_by r expected_client now (fail e) = fail e
  found_by r expected_client now (ok fingerprint) =
      found_for expected_client (Store.find r fingerprint now)

  unfoldable pub find :
      PushedStore → (request_uri expected_client : Text) → Instant → Result AuthorizationRequest
  unfolding found_by
  find r request_uri expected_client now = found_by r expected_client now (digest request_uri)

  unfoldable pub consume :
      (request_uri expected_client : Text) (now : Instant) → Exec PushedStore AuthorizationRequest
  consume request_uri expected_client now = lift (digest request_uri) >>= λ fingerprint.
      (λ r. Store.consume r fingerprint expected_client now) >>= λ p. pure p.request
