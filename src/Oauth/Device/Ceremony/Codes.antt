-- ===== src/Oauth/Device/Ceremony/Codes.antt =====
-- src/oauth/device.cpp: the codes of the entries of the store.
use openproof.Base.{
  ◌≡◌, refl, none, some, List, [], ◌∷◌, Text, text_key, ◌==◌, eq_iff, arith, inl, inr, lookup,
  insert, lookup-insert, Option-cases, Bool-cases, sym, subst, true, ◌⊎◌, contains_key, ◌||◌,
}
use openproof.Foundation.{Instant, Result-cases}
use openproof.Session.Model.{Session}
use openproof.Oauth.Device.Model.{
  DeviceAuthorization, slow_down, consume, mark_polled, create, is_approved,
}
use openproof.Oauth.Device.Model as Model
use openproof.Oauth.Device.Store.{
  DeviceAuthorizationStore, digest_key, find_mapped, add, approve, deny, poll, empty,
}
use openproof.Oauth.Device.Ceremony.{Event, begins, approves, denies, polls, add_created, step, run}

-- Every entry stands under its device code, and every user code leads to the entry that has it.
pub record IsCoded (r : DeviceAuthorizationStore) : Type 0 where
  pub devices :
      (k : Text) (d : DeviceAuthorization)
      → lookup k r.by_device ≡ some d
      → digest_key d.device_code ≡ k
  pub users :
      (k device : Text)
      → lookup k r.user_to_device ≡ some device
      → (d : DeviceAuthorization) × (lookup device r.by_device ≡ some d)
        × (digest_key d.user_code ≡ k)

pub find_mapped_sound :
    (r : DeviceAuthorizationStore) (user_code device : Text) (d : DeviceAuthorization)
    → find_mapped r user_code ≡ some (device, d)
    → (lookup (digest_key user_code) r.user_to_device ≡ some device)
      × (lookup device r.by_device ≡ some d)
unfolding find_mapped
find_mapped_sound r user_code device d h =
    elim (Option-cases (lookup (digest_key user_code) r.user_to_device)) [
      | inl p ↦ absurd (ground arith)
      | inr (c, p) ↦ elim (Option-cases (lookup c r.by_device)) [
        | inl q ↦ absurd (ground arith)
        | inr (x, q) ↦ (ground arith, ground arith)
      ]
    ]

-- The entry that a user code leads to has that user code.
pub find_mapped-coded :
    (r : DeviceAuthorizationStore) (user_code device : Text) (d : DeviceAuthorization)
    → IsCoded r
    → find_mapped r user_code ≡ some (device, d)
    → digest_key d.user_code ≡ digest_key user_code
find_mapped-coded r user_code device d coded h =
    let (mapped, there) = find_mapped_sound r user_code device d h in
    let (x, found, same) = coded.users (digest_key user_code) device mapped in
    ground (arith, there, found, same)

-- A changed entry with the codes that it had.
insert-IsCoded :
    (r : DeviceAuthorizationStore) (device : Text) (d d' : DeviceAuthorization)
    → lookup device r.by_device ≡ some d
    → d'.device_code ≡ d.device_code
    → d'.user_code ≡ d.user_code
    → IsCoded r
    → IsCoded (record r { by_device = insert device d' r.by_device })
insert-IsCoded r device d d' h a b coded = record {
  devices = λ k x p. ground (
    arith,
    lookup-insert device k d' r.by_device,
    eq_iff device k,
    coded.devices k x,
    coded.devices device d h,
  );
  users = λ k c p.
      let (x, found, same) = coded.users k c p in
      elim (Bool-cases (device == c)) [
        | inl q ↦ (
          d',
          ground (arith, lookup-insert device c d' r.by_device),
          ground (arith, (eq_iff device c).0 q, found, same),
        )
        | inr q ↦ (x, ground (arith, lookup-insert device c d' r.by_device), same)
      ];
}

add-IsCoded :
    (r : DeviceAuthorizationStore) (d : DeviceAuthorization) → IsCoded r → IsCoded (add r d).0
unfolding add
add-IsCoded r d coded =
    elim (Bool-cases (
      contains_key (digest_key d.device_code) r.by_device
      || contains_key (digest_key d.user_code) r.user_to_device)) [
        | inl taken ↦ rw taken coded
        | inr free ↦ rw free (record {
          devices = λ k x p. ground (
            arith,
            lookup-insert (digest_key d.device_code) k d r.by_device,
            eq_iff (digest_key d.device_code) k,
            coded.devices k x,
          );
          users = λ k c p. elim (Bool-cases (digest_key d.user_code == k)) [
            | inl q ↦ (
              d,
              ground (
                arith,
                lookup-insert (digest_key d.user_code) k (digest_key d.device_code)
                    r.user_to_device,
                lookup-insert (digest_key d.device_code) c d r.by_device,
                eq_iff (digest_key d.device_code) c,
              ),
              (eq_iff (digest_key d.user_code) k).0 q,
            )
            | inr q ↦
                let (x, found, same) = coded.users k c (
                  ground (
                    arith,
                    lookup-insert (digest_key d.user_code) k (digest_key d.device_code)
                        r.user_to_device,
                  )) in
                (
                  x,
                  ground (
                    arith,
                    lookup-insert (digest_key d.device_code) c d r.by_device,
                    eq_iff (digest_key d.device_code) c,
                    found,
                  ),
                  same,
                )
          ];
        })
      ]

approve-IsCoded :
    (r : DeviceAuthorizationStore) (user_code : Text) (session : Session) (now : Instant)
    → IsCoded r
    → IsCoded (approve r user_code session now).0
unfolding approve
approve-IsCoded r user_code session now coded = elim (Option-cases (find_mapped r user_code)) [
  | inl e ↦ rw e coded
  | inr ((device, d), e) ↦ elim (Result-cases (Model.approve d session now).1) [
    | inr (x, g) ↦ rw (e, g) coded
    | inl (x, g) ↦
        let there = (find_mapped_sound r user_code device d e).1 in
        rw (e, g)
          (insert-IsCoded r device d (Model.approve d session now).0 there
            (unfold Model.approve in ground arith) (unfold Model.approve in ground arith) coded)
  ]
]

deny-IsCoded :
    (r : DeviceAuthorizationStore) (user_code : Text) (now : Instant)
    → IsCoded r
    → IsCoded (deny r user_code now).0
unfolding deny
deny-IsCoded r user_code now coded = elim (Option-cases (find_mapped r user_code)) [
  | inl e ↦ rw e coded
  | inr ((device, d), e) ↦ elim (Result-cases (Model.deny d now).1) [
    | inr (x, g) ↦ rw (e, g) coded
    | inl (x, g) ↦
        let there = (find_mapped_sound r user_code device d e).1 in
        rw (e, g)
          (insert-IsCoded r device d (Model.deny d now).0 there (unfold Model.deny in ground arith)
            (unfold Model.deny in ground arith) coded)
  ]
]

-- What a poll leaves of the store.
unfoldable pub write :
    DeviceAuthorizationStore → Text → DeviceAuthorization → DeviceAuthorizationStore
write r device_code d = record r { by_device = insert (digest_key device_code) d r.by_device }

pub poll-store :
    (r : DeviceAuthorizationStore) (device_code client : Text) (now : Instant)
    (d : DeviceAuthorization)
    → lookup (digest_key device_code) r.by_device ≡ some d
    → ((poll r device_code client now).0 ≡ r)
      ⊎ ((poll r device_code client now).0 ≡ write r device_code (slow_down d now).0)
      ⊎ ((poll r device_code client now).0 ≡ write r device_code (mark_polled d now).0)
      ⊎ (((poll r device_code client now).0 ≡ write r device_code (consume d now).0)
          × (is_approved d.status ≡ true))
unfolding poll write slow_down mark_polled consume
poll-store r device_code client now d e = ground arith

pub poll-missing :
    (r : DeviceAuthorizationStore) (device_code client : Text) (now : Instant)
    → lookup (digest_key device_code) r.by_device ≡ none
    → (poll r device_code client now).0 ≡ r
unfolding poll
poll-missing r device_code client now e = rw e refl

pub poll-IsCoded :
    (r : DeviceAuthorizationStore) (device_code client : Text) (now : Instant)
    → IsCoded r
    → IsCoded (poll r device_code client now).0
unfolding write slow_down mark_polled consume
poll-IsCoded r device_code client now coded =
    elim (Option-cases (lookup (digest_key device_code) r.by_device)) [
      | inl e ↦ subst IsCoded (sym (poll-missing r device_code client now e)) coded
      | inr (d, e) ↦ elim (poll-store r device_code client now d e) [
        | inl p ↦ subst IsCoded (sym p) coded
        | inr (inl p) ↦ subst IsCoded (sym p) (
            insert-IsCoded r (digest_key device_code) d (slow_down d now).0 e (ground arith)
              (ground arith) coded)
        | inr (inr (inl p)) ↦ subst IsCoded (sym p) (
            insert-IsCoded r (digest_key device_code) d (mark_polled d now).0 e (ground arith)
              (ground arith) coded)
        | inr (inr (inr (p, g))) ↦ subst IsCoded (sym p) (
            insert-IsCoded r (digest_key device_code) d (consume d now).0 e (ground arith)
              (ground arith) coded)
      ]
    ]

step-IsCoded : (r : DeviceAuthorizationStore) (e : Event) → IsCoded r → IsCoded (step r e)
unfolding step add_created
step-IsCoded r (begins device_code user_code client_id scopes resource now lifetime interval)
      coded =
    elim (Result-cases
      (create device_code user_code client_id scopes resource now lifetime interval)) [
        | inr (e, p) ↦ rw p coded
        | inl (d, p) ↦ rw p (add-IsCoded r d coded)
      ]
step-IsCoded r (approves user_code session now) coded =
    approve-IsCoded r user_code session now coded
step-IsCoded r (denies user_code now) coded = deny-IsCoded r user_code now coded
step-IsCoded r (polls device_code client now) coded = poll-IsCoded r device_code client now coded

pub run-IsCoded :
    (r : DeviceAuthorizationStore) (events : List Event) → IsCoded r → IsCoded (run r events)
unfolding run
run-IsCoded r [] coded = coded
run-IsCoded r (e ∷ events) coded = run-IsCoded (step r e) events (step-IsCoded r e coded)

pub empty-IsCoded : IsCoded empty
unfolding empty
empty-IsCoded = record {
  devices = λ k d h. absurd (ground arith);
  users = λ k c h. absurd (ground arith);
}
