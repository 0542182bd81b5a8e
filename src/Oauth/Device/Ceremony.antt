-- ===== src/Oauth/Device/Ceremony.antt =====
-- src/oauth/device.cpp: histories of a store of device authorizations.
pub mod Once
pub mod Vouching
pub mod Polling
pub mod Codes
pub mod Approval
pub mod Pace
use openproof.Base.{List, [], ◌∷◌, Option, Text}
use openproof.Foundation.{Result, ok, fail, Instant, Duration}
use openproof.Session.Model.{Session}
use openproof.Oauth.Device.Model.{DeviceAuthorization, create}
use openproof.Oauth.Device.Store.{DeviceAuthorizationStore, add, approve, deny, poll}

-- A beginning is that of the service: the authorization is created, then added.
pub data Event : Type 0 where
  begins :
      (device_code user_code client_id : Text) (scopes : List Text) (resource : Option Text)
      (now : Instant) (lifetime poll_interval : Duration)
      → Event
  approves : (user_code : Text) → Session → Instant → Event
  denies : (user_code : Text) → Instant → Event
  polls : (device_code expected_client : Text) → Instant → Event

unfoldable pub add_created :
    DeviceAuthorizationStore → Result DeviceAuthorization → DeviceAuthorizationStore
add_created r (ok d) = (add r d).0
add_created r (fail e) = r

unfoldable pub step : DeviceAuthorizationStore → Event → DeviceAuthorizationStore
step r (begins device_code user_code client_id scopes resource now lifetime poll_interval) =
    add_created r
      (create device_code user_code client_id scopes resource now lifetime poll_interval)
step r (approves user_code session now) = (approve r user_code session now).0
step r (denies user_code now) = (deny r user_code now).0
step r (polls device_code expected_client now) = (poll r device_code expected_client now).0

unfoldable pub run : DeviceAuthorizationStore → List Event → DeviceAuthorizationStore
run r [] = r
run r (e ∷ events) = run (step r e) events
