-- ===== src/Oauth/Pushed/Store.antt =====
-- src/oauth/par.cpp: the requests that were pushed, by the hexadecimal text of their digest. The lock
-- makes each method one step.
use openproof.Base.{
  ◌+◌, Bool, ◌||◌, Option, none, some, Text, text_key, ◌!=◌, Map, lookup, contains_key, insert,
  erase, leb, eqb, if◌then◌else◌,
}
use openproof.Foundation.{
  Result, ok, fail, Status, Instant, Duration, already_exists, authentication_failed, not_found,
  invalid_argument,
}
use openproof.Foundation.Encoding.{to_hex}
use openproof.Oauth.Model.{AuthorizationRequest}

pub record PushedAuthorizationRequest : Type 0 where
  pub digest : Text
  pub request : AuthorizationRequest
  pub issued_at : Instant
  pub expires_at : Instant

unfoldable pub restore : PushedAuthorizationRequest → Result PushedAuthorizationRequest
restore p = if leb p.expires_at p.issued_at then fail invalid_argument else ok p

unfoldable pub create :
    (digest : Text)
    → AuthorizationRequest
    → (issued_at : Instant) (lifetime : Duration) → Result PushedAuthorizationRequest
create digest request issued_at lifetime =
    if eqb lifetime 0
    then fail invalid_argument
    else restore (record {
      digest = digest;
      request = request;
      issued_at = issued_at;
      expires_at = issued_at + lifetime;
    })

unfoldable pub expired_at : PushedAuthorizationRequest → Instant → Bool
expired_at p now = leb p.expires_at now

abbrev pub PushedStore : Type 0
PushedStore = Map Text PushedAuthorizationRequest

unfoldable pub key : Text → Text
key digest = to_hex digest

unfoldable pub add : PushedStore → PushedAuthorizationRequest → PushedStore × Status
add r p =
    if contains_key (key p.digest) r
    then (r, fail already_exists)
    else (insert (key p.digest) p r, ok tt)

not_expired : Instant → Option PushedAuthorizationRequest → Result PushedAuthorizationRequest
not_expired now none = fail not_found
not_expired now (some p) = if expired_at p now then fail not_found else ok p

unfoldable pub find : PushedStore → (digest : Text) → Instant → Result PushedAuthorizationRequest
unfolding not_expired
find r digest now = not_expired now (lookup (key digest) r)

-- A refusal leaves the request, an expired one too.
consume_found :
    PushedStore
    → (key expected_client : Text) → Instant
    → Option PushedAuthorizationRequest
    → PushedStore × Result PushedAuthorizationRequest
consume_found r k expected_client now none = (r, fail authentication_failed)
consume_found r k expected_client now (some p) =
    if expired_at p now || (p.request.client_id != expected_client)
    then (r, fail authentication_failed)
    else (erase k r, ok p)

unfoldable pub consume :
    PushedStore
    → (digest expected_client : Text) → Instant
    → PushedStore × Result PushedAuthorizationRequest
unfolding consume_found
consume r digest expected_client now =
    consume_found r (key digest) expected_client now (lookup (key digest) r)
