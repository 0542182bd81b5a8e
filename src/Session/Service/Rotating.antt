-- ===== src/Session/Service/Rotating.antt =====
-- src/session/service.cpp: a rotation through the service.
use openproof.Base.{◌+◌, ◌<◌, ◌≡◌, refl, Text, text_key, arith, inl, inr}
use openproof.Foundation.{Instant, ok, fail, Result-cases, authentication_failed}
use openproof.Security.{Crypto}
use openproof.Session.Model.{Session}
use openproof.Session.Store.Consistency.{Agrees}
use openproof.Session.Store.Calls.{uses, step, step-Agrees}
use openproof.Session.Store.Rotation.{use_token-rotate}
use openproof.Session.Store.{SessionRepository, use_token}
use openproof.Session.Service.{SessionService, SessionGrant, authenticate, digest, rotate}
use openproof.Session.Service.Replacing.{authenticate-stored}

module _ ⦃crypto : Crypto⦄ (service : SessionService) where
  -- A rotation that succeeds moves the session that the presented token authenticates, in a
  -- repository whose maps agree, to the token of the grant: until the deadlines of the session,
  -- the idle one counted from the rotation, the new token authenticates that session for the same
  -- identity, and the old token is refused.
  pub authenticate-rotate :
      (token replacement : Text) (now later at : Instant) (r : SessionRepository) (s : Session)
      {grant : SessionGrant}
      → Agrees r
      → (authenticate service token now r).1 ≡ ok s
      → (rotate service token (ok replacement) now later r).1 ≡ ok grant
      → at < s.absolute_expires_at
      → at < later + s.idle_timeout
      → ((authenticate service token at (rotate service token (ok replacement) now later r).0).1
          ≡ fail authentication_failed)
        × ((u : Session) × ((authenticate service grant.token at
                (rotate service token (ok replacement) now later r).0).1
              ≡ ok u)
            × (u.id ≡ s.id)
            × (u.identity ≡ s.identity)
            × (grant.id ≡ s.id))
  unfolding authenticate rotate step
  authenticate-rotate token replacement now later at r s {grant} a known h in_life in_idle =
      elim (Result-cases (digest service token)) [
        | inr (e, p) ↦ absurd (ground arith)
        | inl (d, p) ↦ elim (Result-cases (digest service replacement)) [
          | inr (e, q) ↦ absurd (ground arith)
          | inl (d', q) ↦
              let r' : SessionRepository = (use_token r d now).0 in
              let used : (use_token r d now).1 ≡ ok s = ground arith in
              let agrees : Agrees r' = step-Agrees r (uses d now) a in
              let (refused, taken) =
                use_token-rotate r' s.id d d' later at s agrees
                  (ground (arith, authenticate-stored service token now r a known)) (ground arith)
                  in_life in_idle in
              (
                ground arith,
                (
                  record s { last_seen_at = at; token_digest = d' },
                  ground arith,
                  refl,
                  refl,
                  ground arith,
                ),
              )
        ]
      ]
