-- ===== src/Oauth/Pushed/Single.antt =====
-- src/oauth/par.cpp: who can use a pushed request, and how often.
use openproof.Base.{
  ◌+◌, ◌<◌, ◌≡◌, refl, false, some, Text, text_key, ◌==◌, bytes, ◌++◌, eq_iff, eq_refl, arith, inl,
  inr, lookup, lookup-insert, lookup-erase,
}
use openproof.Foundation.{Result, ok, fail, Instant, Duration, authentication_failed, Result-cases}
use openproof.Security.{Crypto}
use openproof.Oauth.Model.{AuthorizationRequest}
use openproof.Oauth.Pushed.Store.{
  PushedAuthorizationRequest, PushedStore, key, expired_at, create, restore, add,
}
use openproof.Oauth.Pushed.Store as Store
use openproof.Oauth.Pushed.Service.{PushedAuthorizationGrant, digest, push, find, consume}

module _ ⦃crypto : Crypto⦄ where
  -- What a push leaves under the digest of the URI that it returns.
  push_sound :
      (lifetime : Duration) (request : AuthorizationRequest) (random : Result Text) (t : Instant)
      (r : PushedStore) {grant : PushedAuthorizationGrant}
      → (push lifetime request random t r).1 ≡ ok grant
      → (d : Text) × (digest grant.request_uri ≡ ok d)
        × ((p : PushedAuthorizationRequest) × (lookup (key d) (push lifetime request random t r).0
              ≡ some p)
            × (p.request ≡ request)
            × (p.expires_at ≡ t + lifetime))
  unfolding push create restore add
  push_sound lifetime request (fail e) t r {grant} h = absurd (ground arith)
  push_sound lifetime request (ok fresh) t r {grant} h =
      elim (Result-cases (digest (bytes "urn:ietf:params:oauth:request_uri:opar_" ++ fresh))) [
        | inr (e, p) ↦ absurd (ground arith)
        | inl (d, p) ↦
            let pushed : PushedAuthorizationRequest = record {
              digest = d;
              request = request;
              issued_at = t;
              expires_at = t + lifetime;
            } in
            (
              d,
              ground arith,
              (
                pushed,
                ground (arith, lookup-insert (key d) (key d) pushed r, eq_refl (key d)),
                refl,
                refl,
              ),
            )
      ]

  -- A request that was pushed is there, as it was pushed, until its lifetime ends: the client that it
  -- names consumes it once and nobody a second time, at any time, and the attempt of another client
  -- is refused and does not use it up.
  pub consume-push :
      (lifetime : Duration) (request : AuthorizationRequest) (random : Result Text)
      (t now later : Instant) (other client : Text) (r : PushedStore)
      {grant : PushedAuthorizationGrant}
      → (push lifetime request random t r).1 ≡ ok grant
      → now < t + lifetime
      → (other == request.client_id) ≡ false
      → let pushed = (push lifetime request random t r).0 in
        (find pushed grant.request_uri request.client_id now ≡ ok request)
        × (consume grant.request_uri other now pushed ≡ (pushed, fail authentication_failed))
        × ((consume grant.request_uri request.client_id now pushed).1 ≡ ok request)
        × ((consume grant.request_uri client later
              (consume grant.request_uri request.client_id now pushed).0).1
            ≡ fail authentication_failed)
  unfolding find consume Store.find Store.consume expired_at
  consume-push lifetime request random t now later other client r {grant} h before differs =
      let (d, named, (p, stored, same, until)) = push_sound lifetime request random t r h in
      (
        ground (arith, eq_refl request.client_id),
        ground (arith, eq_iff other request.client_id, eq_iff request.client_id other),
        ground (arith, eq_refl request.client_id),
        ground (
          arith,
          eq_refl request.client_id,
          lookup-erase (key d) (key d) (push lifetime request random t r).0,
          eq_refl (key d),
        ),
      )
