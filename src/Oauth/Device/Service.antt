-- ===== src/Oauth/Device/Service.antt =====
-- src/oauth/device.cpp: the service over the store. The state is the store; the clients, which the
-- service only reads, randomness and the clock are arguments.
use openproof.Base.{
  ℕ, ◌+◌, ◌-◌, ◌%◌, not, Option, List, [], ◌∷◌, ◌++◌, Text, bytes, ltb, eqb, length, if◌then◌else◌,
}
use openproof.Foundation.{
  Result, ok, fail, Status, Instant, Duration, invalid_argument, permission_denied, refuse_if,
}
use openproof.Foundation as Plain
use openproof.Foundation.Exec.{Exec, pure, lift, ◌>>=◌, ◌>>◌}
use openproof.Security.{Crypto, hmac_sha256}
use openproof.Session.Model.{Session}
use openproof.Application.Repository.{ApplicationRepository}
use openproof.Client.Model.{Client, permits_scopes}
use openproof.Client.Repository.{ClientRepository}
use openproof.Client.Manager.{require_active}
use openproof.Oauth.Device.Model.{DeviceAuthorization, create}
use openproof.Oauth.Device.Store.{
  DeviceAuthorizationStore, DevicePollResult, add, find_by_user_code,
}
use openproof.Oauth.Device.Store as Store

unfoldable pub create_key : Text → Result Text
create_key secret = if ltb (length secret) 32 then fail invalid_argument else ok secret

-- The client manager that the service reads, its key and its times.
pub record DeviceAuthorizationService : Type 0 where
  pub applications : ApplicationRepository
  pub clients : ClientRepository
  pub key : Text
  pub lifetime : Duration
  pub poll_interval : Duration

pub record DeviceAuthorizationGrant : Type 0 where
  pub device_code : Text
  pub user_code : Text
  pub expires_in : Duration
  pub interval : Duration

abbrev alphabet : Text
alphabet = bytes "BCDFGHJKLMNPQRSTVWXYZ23456789"

-- The entry of a text, 0 where there is none.
entry : Text → ℕ → ℕ
entry [] n = 0
entry (x ∷ xs) n = if eqb n 0 then x else entry xs (n - 1)

coded : ℕ → Text → Text
unfolding entry
coded index [] = []
coded index (byte ∷ random) =
    let rest = entry alphabet (byte % length alphabet) ∷ coded (index + 1) random in
    if eqb index 4 then b'-' ∷ rest else rest

unfoldable pub generate_user_code : Result Text → Result Text
unfolding coded
generate_user_code random = Plain.◌>>=◌ random (λ bs. ok (coded 0 bs))

-- The client that may ask for the scopes; every error is one of permission.
permitted : List Text → Result Client → Status
permitted scopes (fail e) = fail permission_denied
permitted scopes (ok client) = refuse_if (not (permits_scopes client scopes)) permission_denied

module _ ⦃crypto : Crypto⦄ (service : DeviceAuthorizationService) where
  unfoldable pub digest_device : Text → Result Text
  digest_device code = hmac_sha256 service.key code

  unfoldable pub digest_user : Text → Result Text
  digest_user code = hmac_sha256 service.key code

  unfoldable pub begin :
      (client_id : Text) (scopes : List Text) (resource : Option Text)
      (device_random user_random : Result Text) (now : Instant)
      → Exec DeviceAuthorizationStore DeviceAuthorizationGrant
  unfolding permitted
  begin client_id scopes resource device_random user_random now = do
    lift (permitted scopes (require_active service.applications service.clients client_id))
    raw ← lift device_random
    user_code ← lift (generate_user_code user_random)
    device_digest ← lift (digest_device (bytes "opd_" ++ raw))
    user_digest ← lift (digest_user user_code)
    authorization ← lift (
        create device_digest user_digest client_id scopes resource now service.lifetime
          service.poll_interval)
    (λ r. add r authorization)
    pure (record {
      device_code = bytes "opd_" ++ raw;
      user_code = user_code;
      expires_in = service.lifetime;
      interval = service.poll_interval;
    })

  unfoldable pub find : Text → Instant → Exec DeviceAuthorizationStore DeviceAuthorization
  find user_code now = do
    digest ← lift (digest_user user_code)
    (λ r. (r, find_by_user_code r digest now))

  unfoldable pub approve :
      Text → Session → Instant → Exec DeviceAuthorizationStore DeviceAuthorization
  approve user_code session now = do
    digest ← lift (digest_user user_code)
    (λ r. Store.approve r digest session now)

  unfoldable pub deny : Text → Instant → Exec DeviceAuthorizationStore (Unit {0})
  deny user_code now = do digest ← lift (digest_user user_code); (λ r. Store.deny r digest now)

  unfoldable pub poll : Text → Text → Instant → Exec DeviceAuthorizationStore DevicePollResult
  poll device_code expected_client now = do
    digest ← lift (digest_device device_code)
    (λ r. Store.poll r digest expected_client now)
