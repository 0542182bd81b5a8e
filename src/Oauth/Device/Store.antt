-- ===== src/Oauth/Device/Store.antt =====
-- src/oauth/device.cpp: the store of the device authorizations, by device code, with the device codes
-- by user code. The lock makes each method one step.
use openproof.Base.{
  ◌+◌, Bool, false, not, ◌||◌, Option, none, some, [], Text, text_key, ◌!=◌, Map, lookup,
  contains_key, insert, ltb, if◌then◌else◌,
}
use openproof.Foundation.{
  Result, ok, fail, Status, Instant, Duration, already_exists, not_found, authentication_failed,
}
use openproof.Foundation.Encoding.{to_hex}
use openproof.Session.Model.{Session}
use openproof.Oauth.Device.Model.{
  DeviceAuthorization, is_pending, is_denied, is_consumed, is_approved, expired_at, mark_polled,
  consume,
}
use openproof.Oauth.Device.Model as Model

pub record DeviceAuthorizationStore : Type 0 where
  pub by_device : Map Text DeviceAuthorization
  pub user_to_device : Map Text Text

unfoldable pub empty : DeviceAuthorizationStore
empty = record { by_device = []; user_to_device = [] }

pub data DevicePollDisposition : Type 0 where
  pending slow_down denied expired approved : DevicePollDisposition

pub record DevicePollResult : Type 0 where
  pub disposition : DevicePollDisposition
  pub authorization : Option DeviceAuthorization
  pub retry_after : Duration

unfoldable pub digest_key : Text → Text
digest_key digest = to_hex digest

unfoldable pub add :
    DeviceAuthorizationStore → DeviceAuthorization → DeviceAuthorizationStore × Status
add r d =
    if contains_key (digest_key d.device_code) r.by_device
      || contains_key (digest_key d.user_code) r.user_to_device
    then (r, fail already_exists)
    else (
      record {
        by_device = insert (digest_key d.device_code) d r.by_device;
        user_to_device =
            insert (digest_key d.user_code) (digest_key d.device_code) r.user_to_device;
      },
      ok tt,
    )

-- The entry that the map of the user codes leads to.
mapped : DeviceAuthorizationStore → Option Text → Option (Text × DeviceAuthorization)
mapped r none = none
mapped r (some device) = under device (lookup device r.by_device)
  where
    under : Text → Option DeviceAuthorization → Option (Text × DeviceAuthorization)
    under device none = none
    under device (some d) = some (device, d)

unfoldable pub find_mapped : DeviceAuthorizationStore → Text → Option (Text × DeviceAuthorization)
unfolding mapped
find_mapped r user_code = mapped r (lookup (digest_key user_code) r.user_to_device)

found_pending : Instant → Option (Text × DeviceAuthorization) → Result DeviceAuthorization
found_pending now none = fail not_found
found_pending now (some (device, d)) =
    if expired_at d now || not (is_pending d.status) then fail not_found else ok d

unfoldable pub find_by_user_code :
    DeviceAuthorizationStore → Text → Instant → Result DeviceAuthorization
unfolding found_pending
find_by_user_code r user_code now = found_pending now (find_mapped r user_code)

-- A changed copy is written back when the change succeeds.
written :
    DeviceAuthorizationStore
    → Text
    → DeviceAuthorization × Status
    → DeviceAuthorizationStore × Result DeviceAuthorization
written r device (d, ok u) = (record r { by_device = insert device d r.by_device }, ok d)
written r device (d, fail e) = (r, fail e)

changed :
    DeviceAuthorizationStore
    → (DeviceAuthorization → DeviceAuthorization × Status)
    → Option (Text × DeviceAuthorization)
    → DeviceAuthorizationStore × Result DeviceAuthorization
unfolding written
changed r f none = (r, fail not_found)
changed r f (some (device, d)) = written r device (f d)

unfoldable pub approve :
    DeviceAuthorizationStore
    → Text
    → Session
    → Instant
    → DeviceAuthorizationStore × Result DeviceAuthorization
unfolding changed
approve r user_code session now =
    changed r (λ d. Model.approve d session now) (find_mapped r user_code)

dropped : DeviceAuthorizationStore × Result DeviceAuthorization → DeviceAuthorizationStore × Status
dropped (r, ok d) = (r, ok tt)
dropped (r, fail e) = (r, fail e)

unfoldable pub deny : DeviceAuthorizationStore → Text → Instant → DeviceAuthorizationStore × Status
unfolding changed dropped
deny r user_code now = dropped (changed r (λ d. Model.deny d now) (find_mapped r user_code))

-- `now < *lastPollAt + pollInterval`.
too_early : DeviceAuthorization → Instant → Option Instant → Bool
too_early d now none = false
too_early d now (some last) = ltb now (last + d.poll_interval)

-- A poll that changes the authorization: the copy is written back when the change succeeds.
polled :
    DeviceAuthorizationStore
    → Text
    → DevicePollDisposition
    → (DeviceAuthorization → Option DeviceAuthorization)
    → DeviceAuthorization × Status
    → DeviceAuthorizationStore × Result DevicePollResult
polled r device disposition shown (d, fail e) = (r, fail e)
polled r device disposition shown (d, ok u) = (
  record r { by_device = insert device d r.by_device },
  ok (record { disposition = disposition; authorization = shown d; retry_after = d.poll_interval }),
)

poll_found :
    DeviceAuthorizationStore
    → Text
    → (expected_client : Text) → Instant
    → Option DeviceAuthorization
    → DeviceAuthorizationStore × Result DevicePollResult
unfolding too_early polled
poll_found r device expected_client now none = (r, fail not_found)
poll_found r device expected_client now (some d) =
    if d.client_id != expected_client
    then (r, fail authentication_failed)
    else if expired_at d now
    then (
      r,
      ok (record { disposition = expired; authorization = none; retry_after = d.poll_interval }),
    )
    else if is_denied d.status
    then (
      r,
      ok (record { disposition = denied; authorization = none; retry_after = d.poll_interval }),
    )
    else if is_consumed d.status
    then (r, fail authentication_failed)
    else if too_early d now d.last_poll_at
    then polled r device slow_down (λ v. none) (Model.slow_down d now)
    else if is_approved d.status
    then polled r device approved (λ v. some v) (consume d now)
    else polled r device pending (λ v. none) (mark_polled d now)

unfoldable pub poll :
    DeviceAuthorizationStore
    → (device_code expected_client : Text) → Instant
    → DeviceAuthorizationStore × Result DevicePollResult
unfolding poll_found
poll r device_code expected_client now =
    poll_found r (digest_key device_code) expected_client now
      (lookup (digest_key device_code) r.by_device)
