-- ===== src/Token/Service/CodeFlow.antt =====
-- src/oauth/service.cpp and src/token/service.cpp: a code, the tokens for it, and what they stand for.
use openproof.Base.{
  ◌+◌, ◌<◌, ◌≡◌, refl, Option, ◌++◌, Text, bytes, text_key, eq_refl, arith, inl, inr, lookup-insert,
  sort_unique,
}
use openproof.Foundation.{ok, Instant, Result-cases}
use openproof.Foundation.Encoding.{to_hex}
use openproof.Security.{Crypto}
use openproof.Session.Model.{Session}
use openproof.Oauth.Model.{AuthorizationRequest, AuthorizationCode, create}
use openproof.Oauth.Store.{AuthorizationCodeStore, digest_key, add}
use openproof.Oauth.Service.{
  AuthorizationService, AuthorizationGrant, authorize, redeem, code_of, challenge_for_verifier,
}
use openproof.Oauth.Service as Oauth
use openproof.Oauth.Service.Redeeming.{redeem_sound}
use openproof.Token.Model.{
  SenderConstraint, TokenContext, TokenClaims, token_context, access_usable_at,
}
use openproof.Token.Store.{TokenRepository, find_access, store_initial}
use openproof.Token.Grant.{TokenService, TokenGrant, access_record, optional_list}
use openproof.Token.Service.Rotating.{introspect-make_initial}
use openproof.Token.Service.{introspect, issue, make_initial, digest}

module _ ⦃crypto : Crypto⦄ where
  -- What is redeemed of a code right after it was handed out.
  redeem-authorize_sound :
      (service : AuthorizationService) (session : Session) (request : AuthorizationRequest)
      (raw client_id redirect_uri verifier : Text) (now later : Instant)
      (codes : AuthorizationCodeStore) {handed : AuthorizationGrant} {c : AuthorizationCode}
      → (authorize service session request (ok raw) now codes).1 ≡ ok handed
      → (redeem service handed.code client_id redirect_uri verifier later
          (authorize service session request (ok raw) now codes).0).1
        ≡ ok c
      → (c.identity ≡ session.identity)
        × (c.client_id ≡ request.client_id)
        × (c.scopes ≡ request.scopes)
        × (c.redirect_uri ≡ request.redirect_uri)
        × (c.code_challenge ≡ request.code_challenge)
        × (c.authenticated_at ≡ session.authenticated_at)
  unfolding authorize create add
  redeem-authorize_sound service session request raw client_id redirect_uri verifier now later codes
        {handed} {c} h g =
      elim (Result-cases (Oauth.digest service (bytes "opa_" ++ raw))) [
        | inr (e, s) ↦ absurd (ground arith)
        | inl (d, s) ↦
            let issued : AuthorizationCode = record (code_of service session request d now) {
              expires_at = now + service.code_lifetime;
            } in
            let (_, _, _, _, _, (d', t, there, _)) =
              redeem_sound service handed.code client_id redirect_uri verifier later
                (authorize service session request (ok raw) now codes).0 {c = c} g in
            let same : c ≡ issued = ground (
              arith,
              eq_refl (digest_key d),
              lookup-insert (digest_key d) (digest_key d) issued codes,
            ) in
            rw same (refl, refl, refl, refl, refl, refl)
      ]

  -- The claims of a new grant's access token are those that were granted.
  introspect-issue_sound :
      (service : TokenService) (code : AuthorizationCode) (constraint : Option SenderConstraint)
      (family a b : Text) (now later : Instant) (tokens : TokenRepository) {granted : TokenGrant}
      {claims : TokenClaims}
      → (issue service code constraint (ok family) (ok a) (ok b) now tokens).1 ≡ ok granted
      → (introspect service granted.access_token later
          (issue service code constraint (ok family) (ok a) (ok b) now tokens).0).1
        ≡ ok claims
      → (claims.context.identity ≡ code.identity)
        × (claims.context.client ≡ code.client_id)
        × (claims.context.scopes ≡ sort_unique code.scopes)
        × (claims.context.authenticated_at ≡ code.authenticated_at)
        × (later < now + service.policy.access_lifetime)
  unfolding issue make_initial introspect find_access store_initial access_record access_usable_at
      token_context
  introspect-issue_sound service code constraint family a b now later tokens {granted} {claims} h
        g =
      elim (Result-cases (digest service (bytes "opa_" ++ a))) [
        | inr (e, da) ↦ absurd (ground arith)
        | inl (x, da) ↦ elim (Result-cases (digest service (bytes "opr_" ++ b))) [
          | inr (e, db) ↦ absurd (ground arith)
          | inl (y, db) ↦
              let context : TokenContext =
                token_context code.client_id code.identity code.provider code.assurance
                  code.strength code.scopes code.authenticated_at (optional_list code.resource)
                  constraint in
              let live : later < now + service.policy.access_lifetime = ground (
                arith,
                lookup-insert (to_hex x) (to_hex x)
                    (access_record x family context now (now + service.policy.access_lifetime))
                    tokens.access,
                eq_refl (to_hex x),
              ) in
              let claimed =
                introspect-make_initial service context family a b now later tokens
                  {grant = granted} h live in
              let same : claims.context ≡ context = ground (arith, claimed) in
              rw same (refl, refl, refl, refl, live)
        ]
      ]

  -- Introspection of an access token that was granted for a code, which was redeemed after a session
  -- had authorized it, gives the subject of that session with its time of authentication, the client
  -- of the request and the scopes of the request; and whoever redeemed it was that client, had the
  -- redirect URI of the request and a verifier of its challenge.
  pub introspect-redeem :
      (oauth : AuthorizationService) (service : TokenService) (session : Session)
      (request : AuthorizationRequest) (raw client_id redirect_uri verifier : Text)
      (constraint : Option SenderConstraint) (family a b : Text)
      (authorized redeemed issued later : Instant) (codes : AuthorizationCodeStore)
      (tokens : TokenRepository) {handed : AuthorizationGrant} {c : AuthorizationCode}
      {granted : TokenGrant} {claims : TokenClaims}
      → (authorize oauth session request (ok raw) authorized codes).1 ≡ ok handed
      → (redeem oauth handed.code client_id redirect_uri verifier redeemed
          (authorize oauth session request (ok raw) authorized codes).0).1
        ≡ ok c
      → (issue service c constraint (ok family) (ok a) (ok b) issued tokens).1 ≡ ok granted
      → (introspect service granted.access_token later
          (issue service c constraint (ok family) (ok a) (ok b) issued tokens).0).1
        ≡ ok claims
      → (claims.context.identity ≡ session.identity)
        × (claims.context.authenticated_at ≡ session.authenticated_at)
        × (claims.context.client ≡ request.client_id)
        × (claims.context.scopes ≡ sort_unique request.scopes)
        × (client_id ≡ request.client_id)
        × (redirect_uri ≡ request.redirect_uri)
        × (challenge_for_verifier verifier ≡ ok request.code_challenge)
  introspect-redeem oauth service session request raw client_id redirect_uri verifier constraint
        family a b authorized redeemed issued later codes tokens {handed} {c} {granted} {claims} h g
        t i =
      let (subject, client, scopes, uri, challenge, at) =
        redeem-authorize_sound oauth session request raw client_id redirect_uri verifier authorized
          redeemed codes {handed = handed} {c = c} h g in
      let (by_client, by_uri, verified, _, _, _) =
        redeem_sound oauth handed.code client_id redirect_uri verifier redeemed
          (authorize oauth session request (ok raw) authorized codes).0 {c = c} g in
      let (subject', client', scopes', at', _) =
        introspect-issue_sound service c constraint family a b issued later tokens
          {granted = granted} {claims = claims} t i in
      (
        cc (subject, subject'),
        cc (at, at'),
        cc (client, client'),
        cc (scopes, scopes'),
        cc (by_client, client),
        cc (by_uri, uri),
        cc (verified, challenge),
      )
