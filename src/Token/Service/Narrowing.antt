-- ===== src/Token/Service/Narrowing.antt =====
-- src/token/service.cpp: token exchange and rotation never widen what a token is good for.
use openproof.Base.{
  ◌+◌, ◌<◌, ◌++◌, bytes, eq_refl, lookup-insert, ◌≡◌, refl, ap, sym, ◌∙◌, Bool, true, Option, List,
  [], ◌∷◌, Text, text_key, eq_iff, arith, inl, inr, all_of, sort_unique, place,
}
use openproof.Foundation.{Result, ok, fail, Instant, Result-cases}
use openproof.Security.{Crypto}
use openproof.Token.Model.{
  SenderConstraint, TokenContext, TokenClaims, AccessTokenRecord, access_usable_at, permits,
  permits_audience, token_context,
}
use openproof.Client.Model.{Client}
use openproof.Client.Manager.{require_active}
use openproof.Foundation.Encoding.{to_hex}
use openproof.Token.Store.{TokenRepository, store_access_only, find_access}
use openproof.Token.Grant.{TokenService, MachineTokenGrant, access_record}
use openproof.Token.Service.{digest, introspect, issue_token_exchange, requested_scopes}
use openproof.Token.Service.Rotating.{introspect-stored}

-- What holds of the granted context relative to the subject token's.
pub record IsNarrowed (source granted : TokenContext) : Type 0 where
  pub same_client : granted.client ≡ source.client
  pub same_identity : granted.identity ≡ source.identity
  pub same_assurance : granted.assurance ≡ source.assurance
  pub same_authentication : granted.authenticated_at ≡ source.authenticated_at
  pub narrower_scopes : all_of (λ s. permits source s) granted.scopes ≡ true
  pub narrower_audiences : all_of (λ a. permits_audience source a) granted.audiences ≡ true

all_of-place :
    (p : Text → Bool) (x : Text) (xs : List Text)
    → p x ≡ true
    → all_of p xs ≡ true
    → all_of p (place x xs) ≡ true
unfolding all_of place
all_of-place p x [] h a = ground arith
all_of-place p x (y ∷ ys) h a = ground (arith, eq_iff y x, all_of-place p x ys h)

all_of-sort_unique :
    (p : Text → Bool) (xs : List Text) → all_of p xs ≡ true → all_of p (sort_unique xs) ≡ true
unfolding all_of sort_unique
all_of-sort_unique p [] a = refl
all_of-sort_unique p (x ∷ xs) a =
    ground (arith, all_of-sort_unique p xs, all_of-place p x (sort_unique xs))

module _ ⦃crypto : Crypto⦄ (service : TokenService) where
  -- A token that introspection accepts is one of an active client.
  introspect_client :
      (token : Text) (now : Instant) (r : TokenRepository) {claims : TokenClaims}
      → (introspect service token now r).1 ≡ ok claims
      → (client : Client) × (require_active service.applications service.clients
            claims.context.client
          ≡ ok client)
  unfolding introspect
  introspect_client token now r {claims} h = elim (Result-cases (digest service token)) [
    | inr (e, p) ↦ absurd (ground arith)
    | inl (d, p) ↦ elim (Result-cases (find_access r d)) [
      | inr (e, q) ↦ absurd (ground arith)
      | inl (found, q) ↦
          elim (Result-cases
            (require_active service.applications service.clients found.context.client)) [
              | inr (e, s) ↦ absurd (ground arith)
              | inl (client, s) ↦ (client, ground arith)
            ]
    ]
  ]

  introspect-state :
      (token : Text) (now : Instant) (r : TokenRepository) → (introspect service token now r).0 ≡ r
  unfolding introspect
  introspect-state token now r = elim (Result-cases (digest service token)) [
    | inr (e, p) ↦ ground arith
    | inl (d, p) ↦ elim (Result-cases (find_access r d)) [
      | inr (e, q) ↦ ground arith
      | inl (found, q) ↦
          elim (Result-cases
            (require_active service.applications service.clients found.context.client)) [
              | inr (e, s) ↦ ground arith
              | inl (client, s) ↦ ground arith
            ]
    ]
  ]

  -- What a grant was checked for.
  issue_token_exchange-checks :
      (client_id subject_token audience : Text) (scopes : List Text)
      (sender_constraint : Option SenderConstraint) (family_raw access_raw : Result Text)
      (looked_up_at now : Instant) (r : TokenRepository) {grant : MachineTokenGrant}
      {source : TokenClaims}
      → (introspect service subject_token looked_up_at r).1 ≡ ok source
      → (issue_token_exchange service client_id subject_token audience scopes sender_constraint
          family_raw access_raw looked_up_at now r).1
        ≡ ok grant
      → (source.context.client ≡ client_id)
        × (permits_audience source.context audience ≡ true)
        × (all_of
              (λ s. permits source.context s)
              (requested_scopes service source.context.scopes scopes)
            ≡ true)
        × (grant.context
            ≡ token_context client_id source.context.identity source.context.provider
                source.context.assurance source.context.strength
                (requested_scopes service source.context.scopes scopes)
                source.context.authenticated_at
                (audience ∷ [])
                sender_constraint)
  unfolding issue_token_exchange
  issue_token_exchange-checks client_id subject_token audience scopes sender_constraint family_raw
        access_raw looked_up_at now r {grant} {source} p h =
      (
        ground (arith, eq_iff source.context.client client_id),
        ground arith,
        ground arith,
        ground arith,
      )

  -- The token of a grant is stored with the context of the grant and the lifetime of the policy.
  issue_token_exchange-introspect :
      (client_id subject_token audience : Text) (scopes : List Text)
      (sender_constraint : Option SenderConstraint) (family_raw access_raw : Result Text)
      (looked_up_at now later : Instant) (r : TokenRepository) {grant : MachineTokenGrant}
      {source : TokenClaims}
      → (introspect service subject_token looked_up_at r).1 ≡ ok source
      → (issue_token_exchange service client_id subject_token audience scopes sender_constraint
          family_raw access_raw looked_up_at now r).1
        ≡ ok grant
      → later < now + service.policy.access_lifetime
      → (introspect service grant.access_token later
          (issue_token_exchange service client_id subject_token audience scopes sender_constraint
            family_raw access_raw looked_up_at now r).0).1
        ≡ ok (record {
          is_active = true;
          context = grant.context;
          issued_at = now;
          expires_at = now + service.policy.access_lifetime;
        })
  unfolding issue_token_exchange store_access_only access_record access_usable_at token_context
  issue_token_exchange-introspect client_id subject_token audience scopes sender_constraint (fail e)
        access_raw looked_up_at now later r {grant} {source} p h l =
      absurd (ground arith)
  issue_token_exchange-introspect client_id subject_token audience scopes sender_constraint
        (ok family) (fail e) looked_up_at now later r {grant} {source} p h l =
      absurd (ground arith)
  issue_token_exchange-introspect client_id subject_token audience scopes sender_constraint
        (ok family) (ok a) looked_up_at now later r {grant} {source} p h l =
      let (client, active) = introspect_client subject_token looked_up_at r p in
      let unchanged = introspect-state subject_token looked_up_at r in
      elim (Result-cases (digest service (bytes "opa_" ++ a))) [
        | inr (e, da) ↦ absurd (ground arith)
        | inl (x, da) ↦
            let access : AccessTokenRecord =
              access_record x family grant.context now (now + service.policy.access_lifetime) in
            introspect-stored service grant.access_token later
              (issue_token_exchange service client_id subject_token audience scopes
                sender_constraint (ok family) (ok a) looked_up_at now r).0
              {d = x} {found = access} {client = client} (ground arith)
              (ground
                (arith, lookup-insert (to_hex x) (to_hex x) access r.access, eq_refl (to_hex x)))
              (ground arith) (ground (arith, active, eq_iff source.context.client client_id))
      ]

  -- Token exchange never widens access: from a subject token that the service accepts at that
  -- moment, the new token has the client, the subject, the assurance and the time of
  -- authentication of the subject token, and permits only scopes and audiences that the subject
  -- token permits. That holds of the context that is returned and of what introspection of the new
  -- token answers until its lifetime by the policy has passed, which is the same.
  pub issue_token_exchange-narrows :
      (client_id subject_token audience : Text) (scopes : List Text)
      (sender_constraint : Option SenderConstraint) (family_raw access_raw : Result Text)
      (looked_up_at now later : Instant) (r : TokenRepository) {grant : MachineTokenGrant}
      → (issue_token_exchange service client_id subject_token audience scopes sender_constraint
          family_raw access_raw looked_up_at now r).1
        ≡ ok grant
      → later < now + service.policy.access_lifetime
      → (source : TokenClaims) × ((introspect service subject_token looked_up_at r).1 ≡ ok source)
        × IsNarrowed source.context grant.context
        × ((introspect service grant.access_token later
              (issue_token_exchange service client_id subject_token audience scopes
                sender_constraint family_raw access_raw looked_up_at now r).0).1
            ≡ ok (record {
              is_active = true;
              context = grant.context;
              issued_at = now;
              expires_at = now + service.policy.access_lifetime;
            }))
  unfolding token_context issue_token_exchange all_of
  issue_token_exchange-narrows client_id subject_token audience scopes sender_constraint family_raw
        access_raw looked_up_at now later r {grant} h l =
      elim (Result-cases (introspect service subject_token looked_up_at r).1) [
        | inr (e, p) ↦ absurd (ground arith)
        | inl (source, p) ↦
            let (owner, audience_in, scopes_in, context_is) =
              issue_token_exchange-checks client_id subject_token audience scopes sender_constraint
                family_raw access_raw looked_up_at now r p h in
            (
              source,
              p,
              record {
                same_client = ap (λ c. c.client) context_is ∙ sym owner;
                same_identity = ap (λ c. c.identity) context_is;
                same_assurance = ap (λ c. c.assurance) context_is;
                same_authentication = ap (λ c. c.authenticated_at) context_is;
                narrower_scopes = rw (ap (λ c. c.scopes) context_is) (
                    all_of-sort_unique (λ s. permits source.context s)
                      (requested_scopes service source.context.scopes scopes) scopes_in);
                narrower_audiences = rw (ap (λ c. c.audiences) context_is) (
                    all_of-sort_unique (λ a. permits_audience source.context a) (audience ∷ [])
                      (ground arith));
              },
              issue_token_exchange-introspect client_id subject_token audience scopes
                  sender_constraint family_raw access_raw looked_up_at now later r p h l,
            )
      ]
