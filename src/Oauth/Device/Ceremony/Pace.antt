-- ===== src/Oauth/Device/Ceremony/Pace.antt =====
-- src/oauth/device.cpp: a device that polls too fast.
use openproof.Base.{
  ◌+◌, ◌*◌, ◌<◌, ◌≡◌, refl, Bool, true, false, ◌&&◌, ◌||◌, some, List, [], ◌∷◌, Text, text_key,
  ◌==◌, eq_refl, arith, lookup, lookup-insert, ltb, all_of, length,
}
use openproof.Foundation.{Instant, Duration}
use openproof.Oauth.Device.Model.{
  DeviceAuthorization, is_consumed, is_denied, expired_at, slow_down,
}
use openproof.Oauth.Device.Store.{DeviceAuthorizationStore, digest_key, poll}

-- Polls of one device code, one after the other.
unfoldable pub poll_each :
    DeviceAuthorizationStore → (device_code client : Text) → List Instant → DeviceAuthorizationStore
poll_each r device_code client [] = r
poll_each r device_code client (t ∷ ts) =
    poll_each (poll r device_code client t).0 device_code client ts

-- Each poll comes before the interval has passed, which each of them lengthens by five seconds.
unfoldable pub is_hasty : Instant → Duration → List Instant → Bool
is_hasty last interval [] = true
is_hasty last interval (t ∷ ts) = ltb t (last + interval) && is_hasty t (interval + 5000) ts

poll-hasty :
    (r : DeviceAuthorizationStore) (device_code client : Text) (t last : Instant)
    (d : DeviceAuthorization)
    → lookup (digest_key device_code) r.by_device ≡ some d
    → (d.client_id == client) ≡ true
    → is_consumed d.status || is_denied d.status ≡ false
    → d.last_poll_at ≡ some last
    → t < last + d.poll_interval
    → expired_at d t ≡ false
    → lookup (digest_key device_code) (poll r device_code client t).0.by_device
      ≡ some (slow_down d t).0
unfolding poll slow_down
poll-hasty r device_code client t last d e o s p q x = ground (
  arith,
  eq_refl (digest_key device_code),
  lookup-insert (digest_key device_code) (digest_key device_code) (slow_down d t).0 r.by_device,
)

slow_down-fields :
    (d : DeviceAuthorization) (t : Instant)
    → is_consumed d.status || is_denied d.status ≡ false
    → expired_at d t ≡ false
    → (slow_down d t).0 ≡ record d { poll_interval = d.poll_interval + 5000; last_poll_at = some t }
unfolding slow_down
slow_down-fields d t s x = ground arith

-- A device that polls again and again before its interval has passed, of an authorization that is
-- neither consumed nor denied nor expired, never has it consumed: the status stays, and each of its
-- polls makes the interval five seconds longer.
pub poll_each-hasty :
    (r : DeviceAuthorizationStore) (device_code client : Text) (times : List Instant)
    (last : Instant) (d : DeviceAuthorization)
    → lookup (digest_key device_code) r.by_device ≡ some d
    → (d.client_id == client) ≡ true
    → is_consumed d.status || is_denied d.status ≡ false
    → d.last_poll_at ≡ some last
    → is_hasty last d.poll_interval times ≡ true
    → all_of (λ t. ltb t d.expires_at) times ≡ true
    → (d' : DeviceAuthorization) × (lookup
          (digest_key device_code)
          (poll_each r device_code client times).by_device
        ≡ some d')
      × (d'.status ≡ d.status)
      × (d'.poll_interval ≡ d.poll_interval + 5000 * length times)
unfolding poll_each is_hasty all_of expired_at
poll_each-hasty r device_code client [] last d e o s p q x = (d, e, refl, ground arith)
poll_each-hasty r device_code client (t ∷ times) last d e o s p q x =
    let d1 : DeviceAuthorization = record d {
      poll_interval = d.poll_interval + 5000;
      last_poll_at = some t;
    } in
    let stored : lookup (digest_key device_code) (poll r device_code client t).0.by_device
        ≡ some d1 =
      ground (
        arith,
        poll-hasty r device_code client t last d e o s p (ground arith) (ground arith),
        slow_down-fields d t s (ground arith),
      ) in
    let (d', found, status, interval) =
      poll_each-hasty (poll r device_code client t).0 device_code client times t d1 stored o s refl
        (ground arith) (ground arith) in
    (d', found, status, omega (arith, interval))
