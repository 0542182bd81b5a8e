-- ===== src/Oauth/Device/Model.antt =====
-- src/oauth/device.cpp: one device authorization and its states. A method that changes the
-- authorization returns it beside the status.
use openproof.Base.{
  ◌+◌, Bool, true, false, not, ◌&&◌, ◌||◌, Option, none, some, List, Text, text_key, ltb, leb,
  is_empty, is_some, length, sort_by, has_adjacent, if◌then◌else◌,
}
use openproof.Foundation.{
  Result, ok, fail, Status, Instant, Duration, ◌>>=◌, invalid_argument, failed_precondition,
}
use openproof.Identity.Assurance.{AssuranceLevel, AuthenticationStrength}
use openproof.Session.Model.{Session}

pub data DeviceAuthorizationStatus : Type 0 where
  pending approved denied consumed : DeviceAuthorizationStatus

abbrev pub is_pending : DeviceAuthorizationStatus → Bool
is_pending pending = true
is_pending approved = false
is_pending denied = false
is_pending consumed = false

abbrev pub is_approved : DeviceAuthorizationStatus → Bool
is_approved pending = false
is_approved approved = true
is_approved denied = false
is_approved consumed = false

abbrev pub is_denied : DeviceAuthorizationStatus → Bool
is_denied pending = false
is_denied approved = false
is_denied denied = true
is_denied consumed = false

abbrev pub is_consumed : DeviceAuthorizationStatus → Bool
is_consumed pending = false
is_consumed approved = false
is_consumed denied = false
is_consumed consumed = true

pub record DeviceAuthorization : Type 0 where
  pub device_code : Text
  pub user_code : Text
  pub client_id : Text
  pub scopes : List Text
  pub resource : Option Text
  pub issued_at : Instant
  pub expires_at : Instant
  pub poll_interval : Duration
  pub status : DeviceAuthorizationStatus
  pub identity : Option Text
  pub provider : Option Text
  pub assurance : Option AssuranceLevel
  pub strength : Option AuthenticationStrength
  pub authenticated_at : Option Instant
  pub last_poll_at : Option Instant

unfoldable pub normalize_scopes : List Text → Result (List Text)
normalize_scopes scopes =
    if is_empty scopes || ltb 256 (length scopes)
    then fail invalid_argument
    else if has_adjacent (λ s. s) (sort_by (λ s. s) scopes)
    then fail invalid_argument
    else ok (sort_by (λ s. s) scopes)

-- All that names the subject is there.
unfoldable pub approved_claims : DeviceAuthorization → Bool
approved_claims d =
    is_some d.identity
    && is_some d.provider
    && is_some d.assurance
    && is_some d.strength
    && is_some d.authenticated_at

wrong_resource : Option Text → Bool
wrong_resource none = false
wrong_resource (some resource) = is_empty resource || ltb 2048 (length resource)

-- The fields as they were stored, the scopes in any order.
unfoldable pub restore : DeviceAuthorization → Result DeviceAuthorization
unfolding wrong_resource
restore d = normalize_scopes d.scopes >>= λ normalized.
    (if is_empty d.client_id
        || leb d.expires_at d.issued_at
        || leb d.poll_interval 0
        || wrong_resource d.resource
        || (is_approved d.status || is_consumed d.status) && not (approved_claims d)
        || is_pending d.status && approved_claims d
      then fail invalid_argument
      else ok (record d { scopes = normalized }))

unfoldable pub create :
    (device_code user_code client_id : Text) (scopes : List Text) (resource : Option Text)
    (issued_at : Instant) (lifetime poll_interval : Duration)
    → Result DeviceAuthorization
create device_code user_code client_id scopes resource issued_at lifetime poll_interval =
    if leb lifetime 0 || leb poll_interval 0
    then fail invalid_argument
    else restore (record {
      device_code = device_code;
      user_code = user_code;
      client_id = client_id;
      scopes = scopes;
      resource = resource;
      issued_at = issued_at;
      expires_at = issued_at + lifetime;
      poll_interval = poll_interval;
      status = pending;
      identity = none;
      provider = none;
      assurance = none;
      strength = none;
      authenticated_at = none;
      last_poll_at = none;
    })

unfoldable pub expired_at : DeviceAuthorization → Instant → Bool
expired_at d now = leb d.expires_at now

unfoldable pub approve : DeviceAuthorization → Session → Instant → DeviceAuthorization × Status
approve d session now =
    if not (is_pending d.status) || expired_at d now then (d, fail failed_precondition) else (
      record d {
        identity = some session.identity;
        provider = some session.provider;
        assurance = some session.assurance;
        strength = some session.strength;
        authenticated_at = some session.authenticated_at;
        status = approved;
      },
      ok tt,
    )

unfoldable pub deny : DeviceAuthorization → Instant → DeviceAuthorization × Status
deny d now =
    if not (is_pending d.status) || expired_at d now
    then (d, fail failed_precondition)
    else (record d { status = denied }, ok tt)

unfoldable pub mark_polled : DeviceAuthorization → Instant → DeviceAuthorization × Status
mark_polled d now =
    if expired_at d now || is_consumed d.status
    then (d, fail failed_precondition)
    else (record d { last_poll_at = some now }, ok tt)

-- Five seconds more.
unfoldable pub slow_down : DeviceAuthorization → Instant → DeviceAuthorization × Status
slow_down d now =
    if expired_at d now || is_consumed d.status
    then (d, fail failed_precondition)
    else (record d { poll_interval = d.poll_interval + 5000; last_poll_at = some now }, ok tt)

unfoldable pub consume : DeviceAuthorization → Instant → DeviceAuthorization × Status
consume d now =
    if expired_at d now || not (is_approved d.status)
    then (d, fail failed_precondition)
    else (record d { status = consumed; last_poll_at = some now }, ok tt)
