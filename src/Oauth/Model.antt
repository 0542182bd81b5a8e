-- ===== src/Oauth/Model.antt =====
-- src/oauth/model.cpp: PKCE challenges, authorization requests and authorization codes.
use openproof.Base.{
  ℕ, ◌+◌, ◌-◌, Bool, false, not, ◌&&◌, ◌||◌, Option, none, some, List, Text, text_key, ltb, leb,
  eqb, is_empty, length, any_of, all_of, sort_by, has_adjacent, if◌then◌else◌,
}
use openproof.Foundation.{Result, ok, fail, Instant, Duration, ◌>>=◌, invalid_argument, internal}
use openproof.Identity.Assurance.{AssuranceLevel, AuthenticationStrength}

-- A present value that is empty, too long or holds a control character.
wrong_opaque : ℕ → Option Text → Bool
wrong_opaque maximum none = false
wrong_opaque maximum (some value) =
    is_empty value
    || ltb maximum (length value)
    || any_of (λ byte. ltb byte 32 || eqb byte 127) value

unfoldable pub base64_url_character : ℕ → Bool
base64_url_character symbol =
    leb b'A' symbol && leb symbol b'Z'
    || leb b'a' symbol && leb symbol b'z'
    || leb b'0' symbol && leb symbol b'9'
    || eqb symbol b'-'
    || eqb symbol b'_'

-- `PkceChallenge::create`: a challenge is its value.
unfoldable pub create_challenge : Text → Result Text
create_challenge value =
    if not (eqb (length value) 43) || not (all_of base64_url_character value)
    then fail invalid_argument
    else ok value

pub data AuthorizationResponseMode : Type 0 where
  query jwt : AuthorizationResponseMode

-- A duration that a client asks for, which may be below zero.
pub data AskedDuration : Type 0 where
  not_negative : Duration → AskedDuration
  negative : AskedDuration

pub record AuthorizationRequest : Type 0 where
  pub client_id : Text
  pub redirect_uri : Text
  pub scopes : List Text
  pub code_challenge : Text
  pub state : Option Text
  pub nonce : Option Text
  pub maximum_authentication_age : Option Duration
  pub resource : Option Text
  pub response_mode : AuthorizationResponseMode

checked_age : Option AskedDuration → Result (Option Duration)
checked_age none = ok none
checked_age (some (not_negative age)) = ok (some age)
checked_age (some negative) = fail invalid_argument

unfoldable pub create_request :
    (client_id redirect_uri : Text) (scopes : List Text) (code_challenge : Text)
    (state nonce : Option Text) (maximum_authentication_age : Option AskedDuration)
    (resource : Option Text) (response_mode : AuthorizationResponseMode)
    → Result AuthorizationRequest
unfolding wrong_opaque checked_age
create_request client_id redirect_uri scopes code_challenge state nonce maximum_authentication_age
      resource response_mode =
    if is_empty client_id
      || is_empty redirect_uri
      || ltb 2048 (length redirect_uri)
      || is_empty scopes
      || ltb 64 (length scopes)
      || wrong_opaque 512 state
      || wrong_opaque 512 nonce
      || wrong_opaque 2048 resource
    then fail invalid_argument
    else checked_age maximum_authentication_age >>= λ age.
        (if has_adjacent (λ s. s) (sort_by (λ s. s) scopes)
          then fail invalid_argument
          else ok (record {
            client_id = client_id;
            redirect_uri = redirect_uri;
            scopes = sort_by (λ s. s) scopes;
            code_challenge = code_challenge;
            state = state;
            nonce = nonce;
            maximum_authentication_age = age;
            resource = resource;
            response_mode = response_mode;
          }))

pub record AuthorizationCode : Type 0 where
  pub digest : Text
  pub client_id : Text
  pub identity : Text
  pub redirect_uri : Text
  pub scopes : List Text
  pub code_challenge : Text
  pub nonce : Option Text
  pub resource : Option Text
  pub provider : Text
  pub assurance : AssuranceLevel
  pub strength : AuthenticationStrength
  pub authenticated_at : Instant
  pub issued_at : Instant
  pub expires_at : Instant

-- The fields as the code stores them: `create` takes the lifetime and computes the expiry.
unfoldable pub create : AuthorizationCode → Duration → Result AuthorizationCode
unfolding wrong_opaque
create c lifetime =
    if is_empty c.client_id
      || is_empty c.identity
      || is_empty c.redirect_uri
      || is_empty c.scopes
      || leb lifetime 0
      || ltb c.issued_at c.authenticated_at
      || wrong_opaque 512 c.nonce
      || wrong_opaque 2048 c.resource
    then fail invalid_argument
    else ok (record c { expires_at = c.issued_at + lifetime })

or_internal : Result AuthorizationCode → Result AuthorizationCode
or_internal (ok c) = ok c
or_internal (fail e) = fail internal

unfoldable pub restore : AuthorizationCode → Result AuthorizationCode
unfolding or_internal
restore c =
    if leb c.expires_at c.issued_at
    then fail internal
    else or_internal (create c (c.expires_at - c.issued_at))

unfoldable pub expired_at : AuthorizationCode → Instant → Bool
expired_at c now = leb c.expires_at now
