-- ===== src/Oauth/Device/Ceremony/Polling.antt =====
-- src/oauth/device.cpp: what a poll does to authorizations that are vouched for.
use openproof.Base.{
  ◌≡◌, true, ◌||◌, some, List, Text, text_key, arith, inl, inr, lookup, Option-cases, sym, subst,
}
use openproof.Foundation.{Instant}
use openproof.Oauth.Device.Model.{
  DeviceAuthorization, is_consumed, is_approved, slow_down, consume, mark_polled,
}
use openproof.Oauth.Device.Store.{DeviceAuthorizationStore, digest_key, poll}
use openproof.Oauth.Device.Ceremony.{Event}
use openproof.Oauth.Device.Ceremony.Codes.{write, poll-store, poll-missing}
use openproof.Oauth.Device.Ceremony.Vouching.{
  IsVouched, AllVouched, IsVouched-same, insert-AllVouched,
}

write-AllVouched :
    (events : List Event) (r : DeviceAuthorizationStore) (device_code : Text)
    (d d' : DeviceAuthorization)
    → lookup (digest_key device_code) r.by_device ≡ some d
    → (is_approved d'.status || is_consumed d'.status ≡ true
        → is_approved d.status || is_consumed d.status ≡ true)
    → (IsVouched events d → IsVouched events d')
    → AllVouched events r
    → AllVouched events (write r device_code d')
unfolding write AllVouched
write-AllVouched events r device_code d d' e from same v =
    insert-AllVouched events r (digest_key device_code) d'
      (λ s. same (v (digest_key device_code) d e (from s))) v

-- The changes of a poll keep the subject.
slow_down_same :
    (events : List Event) (d : DeviceAuthorization) (now : Instant)
    → IsVouched events d
    → IsVouched events (slow_down d now).0
unfolding slow_down
slow_down_same events d now =
    IsVouched-same events d (slow_down d now).0 (ground arith) (ground arith) (ground arith)
      (ground arith) (ground arith) (ground arith) (ground arith) (ground arith)

mark_polled_same :
    (events : List Event) (d : DeviceAuthorization) (now : Instant)
    → IsVouched events d
    → IsVouched events (mark_polled d now).0
unfolding mark_polled
mark_polled_same events d now =
    IsVouched-same events d (mark_polled d now).0 (ground arith) (ground arith) (ground arith)
      (ground arith) (ground arith) (ground arith) (ground arith) (ground arith)

consume_same :
    (events : List Event) (d : DeviceAuthorization) (now : Instant)
    → IsVouched events d
    → IsVouched events (consume d now).0
unfolding consume
consume_same events d now =
    IsVouched-same events d (consume d now).0 (ground arith) (ground arith) (ground arith)
      (ground arith) (ground arith) (ground arith) (ground arith) (ground arith)

slow_down_from :
    (d : DeviceAuthorization) (now : Instant)
    → is_approved (slow_down d now).0.status || is_consumed (slow_down d now).0.status ≡ true
    → is_approved d.status || is_consumed d.status ≡ true
unfolding slow_down
slow_down_from d now h = ground arith

mark_polled_from :
    (d : DeviceAuthorization) (now : Instant)
    → is_approved (mark_polled d now).0.status || is_consumed (mark_polled d now).0.status ≡ true
    → is_approved d.status || is_consumed d.status ≡ true
unfolding mark_polled
mark_polled_from d now h = ground arith

pub poll-AllVouched :
    (events : List Event) (r : DeviceAuthorizationStore) (device_code client : Text) (now : Instant)
    → AllVouched events r
    → AllVouched events (poll r device_code client now).0
poll-AllVouched events r device_code client now v =
    elim (Option-cases (lookup (digest_key device_code) r.by_device)) [
      | inl e ↦ subst (AllVouched events) (sym (poll-missing r device_code client now e)) v
      | inr (d, e) ↦ elim (poll-store r device_code client now d e) [
        | inl p ↦ subst (AllVouched events) (sym p) v
        | inr (inl p) ↦ subst (AllVouched events) (sym p) (
            write-AllVouched events r device_code d (slow_down d now).0 e (slow_down_from d now)
              (slow_down_same events d now) v)
        | inr (inr (inl p)) ↦ subst (AllVouched events) (sym p) (
            write-AllVouched events r device_code d (mark_polled d now).0 e (mark_polled_from d now)
              (mark_polled_same events d now) v)
        | inr (inr (inr (p, g))) ↦ subst (AllVouched events) (sym p) (
            write-AllVouched events r device_code d (consume d now).0 e (λ s. ground arith)
              (consume_same events d now) v)
      ]
    ]
