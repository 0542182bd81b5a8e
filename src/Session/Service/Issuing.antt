-- ===== src/Session/Service/Issuing.antt =====
-- src/session/service.cpp: what an issued grant is good for.
use openproof.Base.{◌+◌, ◌<◌, ◌≡◌, Text, text_key, eq_refl, arith, insert, lookup-insert, inl, inr}
use openproof.Foundation.{Instant, ok, Result-cases}
use openproof.Security.{Crypto, constant_time_equals_iff}
use openproof.Session.Model.{Session, active, create, use_session}
use openproof.Session.Store.Consistency.{Agrees}
use openproof.Session.Store.Calls.{use_token-found}
use openproof.Session.Store.{SessionRepository, add}
use openproof.Session.Service.{
  SessionService, SessionGrant, VerifiedAuthentication, ClientContext, issue, authenticate, digest,
  new_session,
}

module _ ⦃crypto : Crypto⦄ (service : SessionService) where
  -- What an issue stores.
  pub record IsIssued (authentication : VerifiedAuthentication) (now : Instant) (fingerprint : Text)
      (s : Session) : Type 0 where
    pub has_digest : s.token_digest ≡ fingerprint
    pub is_live : s.state ≡ active
    pub is_bound : s.identity ≡ authentication.identity
    pub lifetime : s.absolute_expires_at ≡ now + service.policy.absolute_lifetime
    pub idle_window : s.last_seen_at + s.idle_timeout ≡ now + service.policy.idle_timeout

  pub new_session-IsIssued :
      (authentication : VerifiedAuthentication) (client : ClientContext) (id fingerprint : Text)
      (now : Instant) {s : Session}
      → new_session service authentication client id fingerprint now ≡ ok s
      → (s.id ≡ id) × IsIssued authentication now fingerprint s
  unfolding new_session create
  new_session-IsIssued authentication client id fingerprint now h = (ground arith, ground arith)

  pub issue-inverts :
      (authentication : VerifiedAuthentication) (client : ClientContext) (id token : Text)
      (now : Instant) (r : SessionRepository) {grant : SessionGrant}
      → (issue service authentication client (ok id) (ok token) now r).1 ≡ ok grant
      → (fingerprint : Text) × (s : Session) × (digest service token ≡ ok fingerprint)
        × (new_session service authentication client id fingerprint now ≡ ok s)
        × ((issue service authentication client (ok id) (ok token) now r).0 ≡ (add r s).0)
        × ((add r s).1 ≡ ok tt)
        × (grant ≡ record { id = id; token = token })
  unfolding issue
  issue-inverts authentication client id token now r h =
      elim (Result-cases (digest service token)) [
        | inr (e, p) ↦ absurd (ground arith)
        | inl (fingerprint, p) ↦
            elim (Result-cases (new_session service authentication client id fingerprint now)) [
              | inr (e, q) ↦ absurd (ground arith)
              | inl (s, q) ↦ (fingerprint, s, p, q, ground arith, ground arith, ground arith)
            ]
      ]

  -- A session just added accepts its token until its deadlines.
  authenticate-add :
      (fingerprint token : Text) (later : Instant) (r : SessionRepository) (s : Session)
      → Agrees r
      → digest service token ≡ ok fingerprint
      → (add r s).1 ≡ ok tt
      → s.token_digest ≡ fingerprint
      → s.state ≡ active
      → later < s.absolute_expires_at
      → later < s.last_seen_at + s.idle_timeout
      → (authenticate service token later (add r s).0).1 ≡ ok (record s { last_seen_at = later })
  unfolding authenticate add use_session
  authenticate-add fingerprint token later r s a p added same live in_life in_idle =
      let r' : SessionRepository = record {
        sessions = insert s.id s r.sessions;
        tokens = insert s.token_digest s.id r.tokens;
      } in
      ground (
        arith,
        p,
        lookup-insert s.id s.id s r.sessions,
        eq_refl s.id,
        lookup-insert s.token_digest s.token_digest s.id r.tokens,
        eq_refl s.token_digest,
        use_token-found r' s.token_digest s.id later s,
        constant_time_equals_iff s.token_digest s.token_digest,
      )

  -- A grant's token authenticates the identity that was verified, from a repository whose index is
  -- consistent, until the lifetimes of the policy have passed since the issue.
  pub authenticate-issue :
      (authentication : VerifiedAuthentication) (client : ClientContext) (id token : Text)
      (now later : Instant) (r : SessionRepository) {grant : SessionGrant}
      → Agrees r
      → (issue service authentication client (ok id) (ok token) now r).1 ≡ ok grant
      → later < now + service.policy.absolute_lifetime
      → later < now + service.policy.idle_timeout
      → (s : Session) × ((authenticate service grant.token later
            (issue service authentication client (ok id) (ok token) now r).0).1
          ≡ ok s)
        × (s.identity ≡ authentication.identity)
        × (s.id ≡ grant.id)
  authenticate-issue authentication client id token now later r a h in_life in_idle =
      let (fingerprint, s, p, q, stored, added, granted) =
        issue-inverts authentication client id token now r h in
      let (same_id, issued) = new_session-IsIssued authentication client id fingerprint now q in
      (
        record s { last_seen_at = later },
        rw (granted, stored)
            (authenticate-add fingerprint token later r s a p added issued.has_digest issued.is_live
              (omega (arith, issued.lifetime)) (omega (arith, issued.idle_window))),
        issued.is_bound,
        ground arith,
      )
