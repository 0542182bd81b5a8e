-- ===== src/Token/Service/Rotating.antt =====
-- src/token/service.cpp: refreshing a grant.
use openproof.Base.{
  ◌+◌, ◌<◌, ◌≡◌, refl, true, Option, some, ◌++◌, Text, bytes, text_key, eq_iff, eq_refl, arith, inl,
  inr, lookup, insert, lookup-insert,
}
use openproof.Foundation.{Result, ok, fail, Instant, Result-cases}
use openproof.Foundation.Encoding.{to_hex}
use openproof.Security.{Crypto}
use openproof.Client.Model.{Client}
use openproof.Client.Manager.{require_active}
use openproof.Token.Model.{
  SenderConstraint, TokenContext, RefreshTokenRecord, AccessTokenRecord, next_sequence,
  access_usable_at, refresh_usable_at, mark_used,
}
use openproof.Token.Store.{
  TokenRepository, rotate_refresh, find_refresh, find_access, store_initial,
}
use openproof.Token.Grant.{TokenService, TokenGrant, access_record, refresh_record, same_constraint}
use openproof.Token.Service.{introspect, refresh, make_rotation, make_initial, digest}

module _ ⦃crypto : Crypto⦄ (service : TokenService) where
  -- An access token stands for what is stored under its digest while that is usable and its client
  -- is active.
  pub introspect-stored :
      (token : Text) (later : Instant) (r : TokenRepository) {d : Text} {found : AccessTokenRecord}
      {client : Client}
      → digest service token ≡ ok d
      → lookup (to_hex d) r.access ≡ some found
      → access_usable_at found later ≡ true
      → require_active service.applications service.clients found.context.client ≡ ok client
      → (introspect service token later r).1
        ≡ ok (record {
          is_active = true;
          context = found.context;
          issued_at = found.issued_at;
          expires_at = found.expires_at;
        })
  unfolding introspect find_access
  introspect-stored token later r {d} {found} {client} p q u a = ground arith

  -- A refresh that succeeds, of a token whose record stands under its own digest, was asked for by
  -- the client of that record under its sender constraint and while the token was usable. It
  -- grants the context of the record, and leaves under the digest of the new refresh token a
  -- record with the same context, family and expiry. Introspection of the new access token finds
  -- it until its lifetime by the policy has passed, with exactly the context of the record and
  -- with that expiry.
  pub refresh-keeps :
      (client_id token : Text) (sender_constraint : Option SenderConstraint)
      (access_raw refresh_raw : Result Text) (now later : Instant) (r : TokenRepository)
      {grant : TokenGrant} {d : Text} {found : RefreshTokenRecord}
      → digest service token ≡ ok d
      → lookup (to_hex d) r.refresh ≡ some found
      → found.digest ≡ d
      → (refresh service client_id token sender_constraint access_raw refresh_raw now r).1
        ≡ ok grant
      → later < now + service.policy.access_lifetime
      → (found.context.client ≡ client_id)
        × (same_constraint found.context.sender_constraint sender_constraint ≡ true)
        × (refresh_usable_at found now ≡ true)
        × (grant.context ≡ found.context)
        × ((d' : Text) × (t : RefreshTokenRecord) × (digest service grant.refresh_token ≡ ok d')
            × (lookup
                  (to_hex d')
                  (refresh service client_id token sender_constraint access_raw refresh_raw now
                    r).0.refresh
                ≡ some t)
            × (t.context ≡ found.context)
            × (t.family ≡ found.family)
            × (t.expires_at ≡ found.expires_at))
        × ((introspect service grant.access_token later
              (refresh service client_id token sender_constraint access_raw refresh_raw now r).0).1
            ≡ ok (record {
              is_active = true;
              context = found.context;
              issued_at = now;
              expires_at = now + service.policy.access_lifetime;
            }))
  unfolding refresh find_refresh make_rotation rotate_refresh refresh_record access_record
      access_usable_at
  refresh-keeps client_id token c (fail e) refresh_raw now later r {grant} {d} {found} p q s h l =
      absurd (ground arith)
  refresh-keeps client_id token c (ok a) (fail e) now later r {grant} {d} {found} p q s h l =
      absurd (ground arith)
  refresh-keeps client_id token c (ok a) (ok b) now later r {grant} {d} {found} p q s h l =
      elim (Result-cases (digest service (bytes "opa_" ++ a))) [
        | inr (e, da) ↦ absurd (ground arith)
        | inl (x, da) ↦ elim (Result-cases (digest service (bytes "opr_" ++ b))) [
          | inr (e, db) ↦ absurd (ground arith)
          | inl (y, db) ↦
              elim (Result-cases (require_active service.applications service.clients client_id)) [
                | inr (e, ra) ↦ absurd (ground arith)
                | inl (client, ra) ↦
                    let t : RefreshTokenRecord =
                      refresh_record y found.family (next_sequence found.sequence) found.context now
                        found.expires_at in
                    let access : AccessTokenRecord =
                      access_record x found.family found.context now
                        (now + service.policy.access_lifetime) in
                    let same : found.context.client ≡ client_id =
                      ground (arith, eq_iff found.context.client client_id) in
                    (
                      same,
                      ground arith,
                      ground arith,
                      ground arith,
                      (
                        y,
                        t,
                        ground arith,
                        ground (
                          arith,
                          lookup-insert (to_hex y) (to_hex y) t
                              (insert (to_hex found.digest) (mark_used now found) r.refresh),
                          eq_refl (to_hex y),
                        ),
                        refl,
                        refl,
                        refl,
                      ),
                      introspect-stored grant.access_token later
                          (refresh service client_id token c (ok a) (ok b) now r).0 {d = x}
                          {found = access} {client = client} (ground arith)
                          (ground (
                            arith,
                            lookup-insert (to_hex x) (to_hex x) access r.access,
                            eq_refl (to_hex x),
                          ))
                          (ground arith) (rw same ra),
                    )
              ]
        ]
      ]

  -- A new grant's access token is active until its lifetime has passed, and stands for the context
  -- that was granted, while the client is active.
  pub introspect-make_initial :
      (context : TokenContext) (family a b : Text) (now later : Instant) (r : TokenRepository)
      {grant : TokenGrant}
      → (make_initial service context (ok family) (ok a) (ok b) now r).1 ≡ ok grant
      → later < now + service.policy.access_lifetime
      → (introspect service grant.access_token later
          (make_initial service context (ok family) (ok a) (ok b) now r).0).1
        ≡ ok (record {
          is_active = true;
          context = context;
          issued_at = now;
          expires_at = now + service.policy.access_lifetime;
        })
  unfolding make_initial introspect find_access store_initial access_record access_usable_at
  introspect-make_initial context family a b now later r {grant} h in_life =
      elim (Result-cases (digest service (bytes "opa_" ++ a))) [
        | inr (e, da) ↦ absurd (ground arith)
        | inl (x, da) ↦ elim (Result-cases (digest service (bytes "opr_" ++ b))) [
          | inr (e, db) ↦ absurd (ground arith)
          | inl (y, db) ↦ ground (
            arith,
            lookup-insert (to_hex x) (to_hex x)
                (access_record x family context now (now + service.policy.access_lifetime))
                r.access,
            eq_refl (to_hex x),
          )
        ]
      ]
