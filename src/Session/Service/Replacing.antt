-- ===== src/Session/Service/Replacing.antt =====
-- src/session/service.cpp: signing in again does not leave two live sessions.
use openproof.Base.{
  ◌≡◌, ◌≢◌, refl, false, some, none, Text, text_key, eq_iff, eq_refl, arith, lookup, lookup-insert,
  inl, inr, is_empty,
}
use openproof.Foundation.{Instant, Result, ok, fail, Result-cases}
use openproof.Security.{Crypto}
use openproof.Session.Model.{Session, use_session}
use openproof.Session.Store.{SessionRepository, add, revoke}
use openproof.Session.Store.Consistency.{Agrees}
use openproof.Session.Store.Calls.{token_cases, use_token-found, use_token-unknown}
use openproof.Session.Service.Issuing.{issue-inverts, new_session-IsIssued}
use openproof.Session.Store.Revocation.{IsDead, revoke-IsDead}
use openproof.Session.Service.{
  SessionService, SessionGrant, VerifiedAuthentication, ClientContext, issue, issue_replacing,
  authenticate, digest,
}

module _ ⦃crypto : Crypto⦄ (service : SessionService) where
  authenticate-not_empty :
      (token : Text) (now : Instant) (r : SessionRepository) {s : Session}
      → (authenticate service token now r).1 ≡ ok s
      → is_empty token ≡ false
  unfolding authenticate digest
  authenticate-not_empty token now r h = ground arith

  -- The steps of a replacement that succeeds, with the states between them.
  replacing-steps :
      (authentication : VerifiedAuthentication) (client : ClientContext) (previous : Text)
      (id token : Result Text) (t0 t1 t2 t3 : Instant) (r r1 r2 : SessionRepository) (s : Session)
      (issued : Result SessionGrant) {grant : SessionGrant}
      → authenticate service previous t0 r ≡ (r1, ok s)
      → issue service authentication client id token t1 r1 ≡ (r2, issued)
      → (issue_replacing service authentication client (some previous) id token t0 t1 t2 t3 r).1
        ≡ ok grant
      → (issued ≡ ok grant)
        × (s.id ≢ grant.id
            → ((issue_replacing service authentication client
                  (some previous)
                  id
                  token
                  t0
                  t1
                  t2
                  t3
                  r).0
                ≡ (revoke r2 s.id t2).0)
              × ((revoke r2 s.id t2).1 ≡ ok tt))
  unfolding issue_replacing
  replacing-steps authentication client previous id token t0 t1 t2 t3 r r1 r2 s (fail e) p q h =
      absurd (ground (arith, authenticate-not_empty previous t0 r {s = s}))
  replacing-steps authentication client previous id token t0 t1 t2 t3 r r1 r2 s (ok g) p q h = (
    ground
        (arith, authenticate-not_empty previous t0 r {s = s}, Result-cases (revoke r2 s.id t2).1),
    λ other. (
      ground (arith, authenticate-not_empty previous t0 r {s = s}, eq_iff s.id g.id),
      ground (arith, authenticate-not_empty previous t0 r {s = s}, eq_iff s.id g.id),
    ),
  )

  add-fresh :
      (r : SessionRepository) (s : Session) → (add r s).1 ≡ ok tt → lookup s.id r.sessions ≡ none
  unfolding add
  add-fresh r s h = ground arith

  -- An issue under an identifier that is taken fails.
  issue-fresh :
      (authentication : VerifiedAuthentication) (client : ClientContext) (id token : Result Text)
      (now : Instant) (r : SessionRepository) {grant : SessionGrant}
      → (issue service authentication client id token now r).1 ≡ ok grant
      → lookup grant.id r.sessions ≡ none
  unfolding issue
  issue-fresh authentication client (fail e) token now r h = absurd (ground arith)
  issue-fresh authentication client (ok id) (fail e) now r h = absurd (ground arith)
  issue-fresh authentication client (ok id) (ok token) now r h =
      let (fingerprint, s, p, q, stored, added, granted) =
        issue-inverts service authentication client id token now r h in
      ground (
        arith,
        new_session-IsIssued service authentication client id fingerprint now q,
        add-fresh r s added,
      )

  -- A use stores the session that it returns.
  pub authenticate-stored :
      (token : Text) (now : Instant) (r : SessionRepository) {s : Session}
      → Agrees r
      → (authenticate service token now r).1 ≡ ok s
      → lookup s.id (authenticate service token now r).0.sessions ≡ some s
  unfolding authenticate use_session
  authenticate-stored token now r {s} a h = elim (Result-cases (digest service token)) [
    | inr (e, p) ↦ absurd (ground arith)
    | inl (d, p) ↦ elim (token_cases r d a) [
      | inl unknown ↦ absurd (ground (arith, use_token-unknown r d now unknown))
      | inr (i, u, e, f, _, same) ↦ ground (
        arith,
        use_token-found r d i now u e f,
        lookup-insert i i (use_session u d now).0 r.sessions,
        eq_refl i,
      )
    ]
  ]

  -- In a repository whose maps agree, if a sign-in that replaces a session succeeds, and the
  -- previous token authenticated a session when the sign-in began, then that session is inactive
  -- or gone afterwards.
  pub issue_replacing-IsDead :
      (authentication : VerifiedAuthentication) (client : ClientContext) (previous : Text)
      (id token : Result Text) (t0 t1 t2 t3 : Instant) (r : SessionRepository) (s : Session)
      {grant : SessionGrant}
      → Agrees r
      → (authenticate service previous t0 r).1 ≡ ok s
      → (issue_replacing service authentication client (some previous) id token t0 t1 t2 t3 r).1
        ≡ ok grant
      → IsDead s.id
          (issue_replacing service authentication client (some previous) id token t0 t1 t2 t3 r).0
  issue_replacing-IsDead authentication client previous id token t0 t1 t2 t3 r s {grant} a p h =
      let r1 : SessionRepository = (authenticate service previous t0 r).0 in
      let step = issue service authentication client id token t1 r1 in
      let (granted, ended) =
        replacing-steps authentication client previous id token t0 t1 t2 t3 r r1 step.0 s step.1
          (ground (arith, p)) refl h in
      let (same_state, revoked) = ended (
        ground (
          arith,
          issue-fresh authentication client id token t1 r1 granted,
          authenticate-stored previous t0 r a p,
        )) in
      rw same_state (revoke-IsDead step.0 s.id t2 _ refl revoked)
