-- ===== src/Oauth/Device/Ceremony/Approval.antt =====
-- src/oauth/device.cpp: who stands behind an approval.
use openproof.Base.{
  ◌<◌, ◌≡◌, refl, some, List, [], ◌∷◌, Text, text_key, eq_iff, eq_refl, arith, inl, inr, lookup,
  lookup-insert, Option-cases, ◌++◌, subst, sym, append-nil, append_assoc,
}
use openproof.Foundation.{ok, Instant, Result-cases}
use openproof.Oauth.Device.Model.{
  DeviceAuthorization, consumed, expired_at, slow_down, consume, mark_polled, create,
}
use openproof.Oauth.Device.Store.{
  DeviceAuthorizationStore, DevicePollResult, digest_key, poll, empty,
}
use openproof.Oauth.Device.Ceremony.{Event, begins, approves, denies, polls, add_created, step, run}
use openproof.Oauth.Device.Ceremony.Codes.{IsCoded, run-IsCoded, empty-IsCoded, poll-IsCoded}
use openproof.Oauth.Device.Ceremony.Polling.{poll-AllVouched}
use openproof.Oauth.Device.Ceremony.Vouching.{
  IsVouched, AllVouched, AllVouched-snoc, create_pending, add-AllVouched, approve-AllVouched,
  deny-AllVouched,
}

step-AllVouched :
    (events : List Event) (e : Event)
    → IsCoded (run empty events)
    → AllVouched events (run empty events)
    → AllVouched (events ++ (e ∷ [])) (step (run empty events) e)
unfolding step add_created
step-AllVouched events
      (begins device_code user_code client_id scopes resource now lifetime interval) coded v =
    let e = begins device_code user_code client_id scopes resource now lifetime interval in
    let longer = AllVouched-snoc events e (run empty events) v in
    elim (Result-cases
      (create device_code user_code client_id scopes resource now lifetime interval)) [
        | inr (x, p) ↦ rw p longer
        | inl (d, p) ↦ rw p (
            add-AllVouched (events ++ (e ∷ [])) (run empty events) d
              (create_pending device_code user_code client_id scopes resource now lifetime interval
                p)
              longer)
      ]
step-AllVouched events (approves user_code session now) coded v =
    approve-AllVouched events user_code session now coded v
step-AllVouched events (denies user_code now) coded v =
    deny-AllVouched (events ++ (denies user_code now ∷ [])) (run empty events) user_code now
      (AllVouched-snoc events (denies user_code now) (run empty events) v)
step-AllVouched events (polls device_code client now) coded v =
    poll-AllVouched (events ++ (polls device_code client now ∷ [])) (run empty events) device_code
      client now (AllVouched-snoc events (polls device_code client now) (run empty events) v)

run-snoc :
    (r : DeviceAuthorizationStore) (events : List Event) (e : Event)
    → run r (events ++ (e ∷ [])) ≡ step (run r events) e
unfolding run
run-snoc r [] e = refl
run-snoc r (x ∷ events) e = run-snoc (step r x) events e

run-AllVouched :
    (before events : List Event)
    → AllVouched before (run empty before)
    → AllVouched (before ++ events) (run empty (before ++ events))
run-AllVouched before [] v = subst (λ es. AllVouched es (run empty es)) (sym (append-nil before)) v
run-AllVouched before (e ∷ events) v =
    let next =
      subst (AllVouched (before ++ (e ∷ []))) (sym (run-snoc empty before e))
        (step-AllVouched before e (run-IsCoded empty before empty-IsCoded) v) in
    subst (λ es. AllVouched es (run empty es)) (append_assoc before (e ∷ []) events)
      (run-AllVouched (before ++ (e ∷ [])) events next)

empty-AllVouched : (events : List Event) → AllVouched events empty
unfolding AllVouched empty
empty-AllVouched events k d h s = absurd (ground arith)

poll-authorization :
    (r : DeviceAuthorizationStore) (device_code client : Text) (now : Instant)
    {result : DevicePollResult} {d : DeviceAuthorization}
    → (poll r device_code client now).1 ≡ ok result
    → result.authorization ≡ some d
    → (d.client_id ≡ client)
      × (d.status ≡ consumed)
      × (now < d.expires_at)
      × (lookup (digest_key device_code) (poll r device_code client now).0.by_device ≡ some d)
unfolding poll consume slow_down mark_polled expired_at
poll-authorization r device_code client now {result} {d} h a =
    elim (Option-cases (lookup (digest_key device_code) r.by_device)) [
      | inl e ↦ absurd (ground arith)
      | inr (d', e) ↦ (
        ground (arith, eq_iff d'.client_id client),
        ground arith,
        ground arith,
        ground (
          arith,
          eq_refl (digest_key device_code),
          lookup-insert (digest_key device_code) (digest_key device_code) (consume d' now).0
              r.by_device,
        ),
      )
    ]

-- An authorization that a poll hands to a device, after any history of a store that began empty, is
-- consumed, has the device code that was polled, belongs to the client that polls and has not
-- expired, and its subject, with the assurance and the time of the authentication, is that of a
-- session which approved it in that history by its user code before it expired.
pub poll-IsVouched :
    (events : List Event) (device_code client : Text) (now : Instant) {result : DevicePollResult}
    {d : DeviceAuthorization}
    → (poll (run empty events) device_code client now).1 ≡ ok result
    → result.authorization ≡ some d
    → (d.client_id ≡ client)
      × (d.status ≡ consumed)
      × (now < d.expires_at)
      × (digest_key d.device_code ≡ digest_key device_code)
      × IsVouched events d
unfolding AllVouched run
poll-IsVouched events device_code client now {result} {d} h a =
    let (owned, used, live, there) =
      poll-authorization (run empty events) device_code client now {result = result} {d = d} h a in
    (
      owned,
      used,
      live,
      (poll-IsCoded (run empty events) device_code client now
            (run-IsCoded empty events empty-IsCoded)).devices
          (digest_key device_code) d there,
      poll-AllVouched events (run empty events) device_code client now
          (run-AllVouched [] events (empty-AllVouched [])) (digest_key device_code) d there
          (rw used refl),
    )
