-- ===== src/Oauth/Device/Ceremony/Once.antt =====
-- src/oauth/device.cpp: an authorization that was consumed or denied stays so.
use openproof.Base.{
  ◌≡◌, Bool, true, false, ◌||◌, Option, none, some, List, [], ◌∷◌, Text, text_key, eq_iff, eq_refl,
  arith, inl, inr, lookup, lookup-insert, Option-cases,
}
use openproof.Foundation.{Result, ok, fail, Instant, Result-cases}
use openproof.Session.Model.{Session}
use openproof.Oauth.Device.Model.{
  DeviceAuthorization, is_consumed, is_denied, expired_at, slow_down, consume, mark_polled, create,
}
use openproof.Oauth.Device.Model as Model
use openproof.Oauth.Device.Store.{
  DeviceAuthorizationStore, DevicePollResult, DevicePollDisposition, digest_key, find_mapped, add,
  approve, deny, poll,
}
use openproof.Oauth.Device.Ceremony.{Event, begins, approves, denies, polls, add_created, step, run}

-- The entry is there, and was consumed or denied.
pub is_closed : Option DeviceAuthorization → Bool
is_closed none = false
is_closed (some d) = is_consumed d.status || is_denied d.status

-- The poll gave the approval.
unfoldable pub gives_approval : Result DevicePollResult → Bool
gives_approval (fail e) = false
gives_approval (ok result) = is_approval result.disposition
  where
    is_approval : DevicePollDisposition → Bool
    is_approval DevicePollDisposition.approved = true
    is_approval DevicePollDisposition.pending = false
    is_approval DevicePollDisposition.slow_down = false
    is_approval DevicePollDisposition.denied = false
    is_approval DevicePollDisposition.expired = false

add-closed :
    (k : Text) (r : DeviceAuthorizationStore) (d : DeviceAuthorization)
    → is_closed (lookup k r.by_device) ≡ true
    → is_closed (lookup k (add r d).0.by_device) ≡ true
unfolding add is_closed
add-closed k r d h = ground (
  arith,
  lookup-insert (digest_key d.device_code) k d r.by_device,
  eq_iff (digest_key d.device_code) k,
)

-- What the map of the user codes leads to is an entry.
pub lookup-find_mapped :
    (r : DeviceAuthorizationStore) (user_code : Text) {device : Text} {d : DeviceAuthorization}
    → find_mapped r user_code ≡ some (device, d)
    → lookup device r.by_device ≡ some d
unfolding find_mapped
lookup-find_mapped r user_code {device} {d} h = ground arith

approve-closed :
    (k : Text) (r : DeviceAuthorizationStore) (user_code : Text) (session : Session) (now : Instant)
    → is_closed (lookup k r.by_device) ≡ true
    → is_closed (lookup k (approve r user_code session now).0.by_device) ≡ true
unfolding approve Model.approve is_closed
approve-closed k r user_code session now h = elim (Option-cases (find_mapped r user_code)) [
  | inl e ↦ ground arith
  | inr ((device, d), e) ↦ ground (
    arith,
    lookup-find_mapped r user_code {device = device} {d = d} e,
    eq_iff device k,
    lookup-insert device k (Model.approve d session now).0 r.by_device,
  )
]

deny-closed :
    (k : Text) (r : DeviceAuthorizationStore) (user_code : Text) (now : Instant)
    → is_closed (lookup k r.by_device) ≡ true
    → is_closed (lookup k (deny r user_code now).0.by_device) ≡ true
unfolding deny Model.deny is_closed
deny-closed k r user_code now h = elim (Option-cases (find_mapped r user_code)) [
  | inl e ↦ ground arith
  | inr ((device, d), e) ↦ ground (
    arith,
    lookup-find_mapped r user_code {device = device} {d = d} e,
    eq_iff device k,
    lookup-insert device k (Model.deny d now).0 r.by_device,
  )
]

poll-closed :
    (k : Text) (r : DeviceAuthorizationStore) (device_code client : Text) (now : Instant)
    → is_closed (lookup k r.by_device) ≡ true
    → is_closed (lookup k (poll r device_code client now).0.by_device) ≡ true
unfolding poll slow_down consume mark_polled is_closed
poll-closed k r device_code client now h =
    elim (Option-cases (lookup (digest_key device_code) r.by_device)) [
      | inl e ↦ ground arith
      | inr (d, e) ↦ ground (
        arith,
        eq_iff (digest_key device_code) k,
        lookup-insert (digest_key device_code) k (slow_down d now).0 r.by_device,
        lookup-insert (digest_key device_code) k (consume d now).0 r.by_device,
        lookup-insert (digest_key device_code) k (mark_polled d now).0 r.by_device,
      )
    ]

step-closed :
    (k : Text) (r : DeviceAuthorizationStore) (e : Event)
    → is_closed (lookup k r.by_device) ≡ true
    → is_closed (lookup k (step r e).by_device) ≡ true
unfolding step add_created
step-closed k r (begins device_code user_code client_id scopes resource now lifetime interval) h =
    elim (Result-cases
      (create device_code user_code client_id scopes resource now lifetime interval)) [
        | inl (d, p) ↦ rw p (add-closed k r d h)
        | inr (e, p) ↦ rw p h
      ]
step-closed k r (approves user_code session now) h = approve-closed k r user_code session now h
step-closed k r (denies user_code now) h = deny-closed k r user_code now h
step-closed k r (polls device_code client now) h = poll-closed k r device_code client now h

run-closed :
    (k : Text) (r : DeviceAuthorizationStore) (events : List Event)
    → is_closed (lookup k r.by_device) ≡ true
    → is_closed (lookup k (run r events).by_device) ≡ true
unfolding run
run-closed k r [] h = h
run-closed k r (e ∷ events) h = run-closed k (step r e) events (step-closed k r e h)

poll-no_approval :
    (r : DeviceAuthorizationStore) (device_code client : Text) (now : Instant)
    → is_closed (lookup (digest_key device_code) r.by_device) ≡ true
    → gives_approval (poll r device_code client now).1 ≡ false
unfolding poll gives_approval is_closed
poll-no_approval r device_code client now h = ground arith

poll-closes :
    (r : DeviceAuthorizationStore) (device_code client : Text) (now : Instant)
    → gives_approval (poll r device_code client now).1 ≡ true
    → is_closed (lookup (digest_key device_code) (poll r device_code client now).0.by_device) ≡ true
unfolding poll gives_approval is_closed consume slow_down mark_polled
poll-closes r device_code client now h =
    elim (Option-cases (lookup (digest_key device_code) r.by_device)) [
      | inl e ↦ absurd (ground arith)
      | inr (d, e) ↦ ground (
        arith,
        eq_refl (digest_key device_code),
        lookup-insert (digest_key device_code) (digest_key device_code) (consume d now).0
            r.by_device,
      )
    ]

-- A device code gives its approval once: after a poll that gave it, no poll of the same code does,
-- whichever client polls and whatever happens to the store in between.
pub poll-once :
    (r : DeviceAuthorizationStore) (device_code client client' : Text) (now later : Instant)
    (events : List Event)
    → gives_approval (poll r device_code client now).1 ≡ true
    → gives_approval
        (poll (run (poll r device_code client now).0 events) device_code client' later).1
      ≡ false
poll-once r device_code client client' now later events h =
    poll-no_approval (run (poll r device_code client now).0 events) device_code client' later (
      run-closed (digest_key device_code) (poll r device_code client now).0 events
        (poll-closes r device_code client now h))

deny-closes :
    (r : DeviceAuthorizationStore) (user_code device : Text) (now : Instant)
    {d : DeviceAuthorization}
    → find_mapped r user_code ≡ some (device, d)
    → (deny r user_code now).1 ≡ ok tt
    → is_closed (lookup device (deny r user_code now).0.by_device) ≡ true
unfolding deny Model.deny is_closed
deny-closes r user_code device now {d} e h =
    ground (arith, eq_refl device, lookup-insert device device (Model.deny d now).0 r.by_device)

-- A denial is final: after an authorization was denied under its user code, no poll of its device
-- code gives an approval, whatever happens to the store in between.
pub deny-final :
    (r : DeviceAuthorizationStore) (user_code device_code client : Text) (now later : Instant)
    (events : List Event) {d : DeviceAuthorization}
    → find_mapped r user_code ≡ some (digest_key device_code, d)
    → (deny r user_code now).1 ≡ ok tt
    → gives_approval (poll (run (deny r user_code now).0 events) device_code client later).1 ≡ false
deny-final r user_code device_code client now later events {d} e h =
    poll-no_approval (run (deny r user_code now).0 events) device_code client later (
      run-closed (digest_key device_code) (deny r user_code now).0 events
        (deny-closes r user_code (digest_key device_code) now {d = d} e h))
