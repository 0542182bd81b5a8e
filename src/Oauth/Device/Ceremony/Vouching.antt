-- ===== src/Oauth/Device/Ceremony/Vouching.antt =====
-- src/oauth/device.cpp: authorizations that are vouched for, and what the operations do to them.
use openproof.Base.{
  ◌<◌, ◌≡◌, true, ◌||◌, Option, some, List, Text, text_key, ◌==◌, eq_iff, arith, inl, inr, lookup,
  insert, lookup-insert, Option-cases, Bool-cases, sym, not, [], ◌∷◌, ◌++◌, ap, ◌∙◌, refl,
  append_assoc,
}
use openproof.Foundation.{ok, Instant, Duration, Result-cases}
use openproof.Session.Model.{Session}
use openproof.Oauth.Device.Model.{
  DeviceAuthorization, is_consumed, is_approved, is_pending, denied, pending, consumed, expired_at,
  slow_down, consume, mark_polled, create, restore,
}
use openproof.Oauth.Device.Model as Model
use openproof.Oauth.Device.Store.{
  DeviceAuthorizationStore, digest_key, find_mapped, add, approve, deny, empty,
}
use openproof.Oauth.Device.Ceremony.{Event, approves, run}
use openproof.Oauth.Device.Ceremony.Codes.{IsCoded, find_mapped-coded}

-- An approval among the events gave the authorization its subject, before it expired: it was asked
-- for with the user code of the authorization, and succeeded on the authorization of its device code.
pub record IsVouched (events : List Event) (d : DeviceAuthorization) : Type 0 where
  pub before : List Event
  pub user_code : Text
  pub session : Session
  pub at : Instant
  pub after : List Event
  pub split : events ≡ before ++ (approves user_code session at ∷ after)
  pub same_code : digest_key user_code ≡ digest_key d.user_code
  pub approved : DeviceAuthorization
  pub accepted : (approve (run empty before) user_code session at).1 ≡ ok approved
  pub same_device : approved.device_code ≡ d.device_code
  pub identity : d.identity ≡ some session.identity
  pub provider : d.provider ≡ some session.provider
  pub assurance : d.assurance ≡ some session.assurance
  pub strength : d.strength ≡ some session.strength
  pub authenticated_at : d.authenticated_at ≡ some session.authenticated_at
  pub in_time : at < d.expires_at

-- Every authorization that was approved is vouched for.
unfoldable pub AllVouched : List Event → DeviceAuthorizationStore → Type 0
AllVouched events r =
    (k : Text) (d : DeviceAuthorization)
    → lookup k r.by_device ≡ some d
    → is_approved d.status || is_consumed d.status ≡ true
    → IsVouched events d

-- The codes, the subject and the deadline are all that it depends on.
pub IsVouched-same :
    (events : List Event) (d d' : DeviceAuthorization)
    → d'.device_code ≡ d.device_code
    → d'.user_code ≡ d.user_code
    → d'.identity ≡ d.identity
    → d'.provider ≡ d.provider
    → d'.assurance ≡ d.assurance
    → d'.strength ≡ d.strength
    → d'.authenticated_at ≡ d.authenticated_at
    → d'.expires_at ≡ d.expires_at
    → IsVouched events d
    → IsVouched events d'
IsVouched-same events d d' device user a b c e f g v = record {
  before = v.before;
  user_code = v.user_code;
  session = v.session;
  at = v.at;
  after = v.after;
  split = v.split;
  same_code = ground (arith, v.same_code, user);
  approved = v.approved;
  accepted = v.accepted;
  same_device = cc (device, v.same_device);
  identity = cc (a, v.identity);
  provider = cc (b, v.provider);
  assurance = cc (c, v.assurance);
  strength = cc (e, v.strength);
  authenticated_at = cc (f, v.authenticated_at);
  in_time = rw g v.in_time;
}

pub create_pending :
    (device_code user_code client_id : Text) (scopes : List Text) (resource : Option Text)
    (now : Instant) (lifetime interval : Duration) {d : DeviceAuthorization}
    → create device_code user_code client_id scopes resource now lifetime interval ≡ ok d
    → d.status ≡ pending
unfolding create restore
create_pending device_code user_code client_id scopes resource now lifetime interval {d} h =
    ground arith

pub add-AllVouched :
    (events : List Event) (r : DeviceAuthorizationStore) (d : DeviceAuthorization)
    → d.status ≡ pending
    → AllVouched events r
    → AllVouched events (add r d).0
unfolding add AllVouched
add-AllVouched events r d p v k d' h s =
    v k d'
      (ground (
        arith,
        lookup-insert (digest_key d.device_code) k d r.by_device,
        eq_iff (digest_key d.device_code) k,
      ))
      s

-- A longer history vouches too.
IsVouched-snoc :
    (events : List Event) (e : Event) (d : DeviceAuthorization)
    → IsVouched events d
    → IsVouched (events ++ (e ∷ [])) d
IsVouched-snoc events e d v = record {
  before = v.before;
  user_code = v.user_code;
  session = v.session;
  at = v.at;
  after = v.after ++ (e ∷ []);
  split =
      ap (λ es. es ++ (e ∷ [])) v.split
      ∙ append_assoc v.before (approves v.user_code v.session v.at ∷ v.after) (e ∷ []);
  same_code = v.same_code;
  approved = v.approved;
  accepted = v.accepted;
  same_device = v.same_device;
  identity = v.identity;
  provider = v.provider;
  assurance = v.assurance;
  strength = v.strength;
  authenticated_at = v.authenticated_at;
  in_time = v.in_time;
}

pub AllVouched-snoc :
    (events : List Event) (e : Event) (r : DeviceAuthorizationStore)
    → AllVouched events r
    → AllVouched (events ++ (e ∷ [])) r
unfolding AllVouched
AllVouched-snoc events e r v k d h s = IsVouched-snoc events e d (v k d h s)

approve-vouches :
    (events : List Event) (user_code device : Text) (session : Session) (now : Instant)
    (d : DeviceAuthorization)
    → find_mapped (run empty events) user_code ≡ some (device, d)
    → digest_key d.user_code ≡ digest_key user_code
    → (Model.approve d session now).1 ≡ ok tt
    → IsVouched (events ++ (approves user_code session now ∷ [])) (Model.approve d session now).0
unfolding approve Model.approve expired_at
approve-vouches events user_code device session now d found same h = record {
  before = events;
  user_code = user_code;
  session = session;
  at = now;
  after = [];
  split = refl;
  same_code = ground (arith, same);
  approved = (Model.approve d session now).0;
  accepted = ground arith;
  same_device = refl;
  identity = ground arith;
  provider = ground arith;
  assurance = ground arith;
  strength = ground arith;
  authenticated_at = ground arith;
  in_time = ground arith;
}

-- An entry that was written is the one at its key, and the others stay.
pub insert-AllVouched :
    (events : List Event) (r : DeviceAuthorizationStore) (device : Text) (d : DeviceAuthorization)
    → (is_approved d.status || is_consumed d.status ≡ true → IsVouched events d)
    → AllVouched events r
    → AllVouched events (record r { by_device = insert device d r.by_device })
unfolding AllVouched
insert-AllVouched events r device d w v k d' h s = elim (Bool-cases (device == k)) [
  | inl p ↦
      let same : d' ≡ d = ground (arith, lookup-insert device k d r.by_device) in
      rw same (w (rw (sym same) s))
  | inr p ↦ v k d' (ground (arith, lookup-insert device k d r.by_device)) s
]

pub approve-AllVouched :
    (events : List Event) (user_code : Text) (session : Session) (now : Instant)
    → IsCoded (run empty events)
    → AllVouched events (run empty events)
    → AllVouched
        (events ++ (approves user_code session now ∷ []))
        (approve (run empty events) user_code session now).0
unfolding approve
approve-AllVouched events user_code session now coded v =
    let r : DeviceAuthorizationStore = run empty events in
    let all : List Event = events ++ (approves user_code session now ∷ []) in
    let longer : AllVouched all r = AllVouched-snoc events (approves user_code session now) r v in
    elim (Option-cases (find_mapped r user_code)) [
      | inl e ↦ rw e longer
      | inr ((device, d), e) ↦ elim (Result-cases (Model.approve d session now).1) [
        | inr (x, g) ↦ rw (e, g) longer
        | inl (x, g) ↦
            rw (e, g)
              (insert-AllVouched all r device (Model.approve d session now).0
                (λ s.
                  approve-vouches events user_code device session now d e
                    (find_mapped-coded r user_code device d coded e) g)
                longer)
      ]
    ]

pub deny-AllVouched :
    (events : List Event) (r : DeviceAuthorizationStore) (user_code : Text) (now : Instant)
    → AllVouched events r
    → AllVouched events (deny r user_code now).0
unfolding deny Model.deny
deny-AllVouched events r user_code now v = elim (Option-cases (find_mapped r user_code)) [
  | inl e ↦ rw e v
  | inr ((device, d), e) ↦ elim (Bool-cases (not (is_pending d.status) || expired_at d now)) [
    | inl g ↦ rw (e, g) v
    | inr g ↦
        rw (e, g)
          (insert-AllVouched events r device (record d { status = denied })
            (λ s. absurd (ground arith)) v)
  ]
]
