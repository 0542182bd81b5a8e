-- ===== src/Oauth/Service/Redeeming.antt =====
-- src/oauth/service.cpp: what it takes to redeem a code.
use openproof.Base.{
  ℕ, ◌+◌, ◌<◌, ◌≡◌, refl, true, none, some, List, [], ◌∷◌, ◌++◌, Text, text_key, bytes, leb,
  eq_refl, arith, inl, inr, length, all_of, lookup, lookup-insert,
}
use openproof.Foundation.{ok, fail, Instant, authentication_failed, Result-cases}
use openproof.Foundation.Base64.{base64_symbol, to_base64_url}
use openproof.Foundation.Base64.Spelling.{length-to_base64_url}
use openproof.Security.{Crypto, sha256}
use openproof.Session.Model.{Session}
use openproof.Client.Model.{Client}
use openproof.Client.Manager.{require_active}
use openproof.Oauth.Model.{
  AuthorizationRequest, AuthorizationCode, create, create_challenge, base64_url_character,
  expired_at,
}
use openproof.Oauth.Store.{AuthorizationCodeStore, digest_key, add, consume_bound}
use openproof.Oauth.Store.Once.{Call, run, spares, consume_bound_sound, consume_bound-once}
use openproof.Oauth.Service.{
  AuthorizationService, AuthorizationGrant, verifier_character, challenge_for_verifier, digest,
  code_of, authorize, redeem,
}

base64_url_character-base64_symbol : (n : ℕ) → base64_url_character (base64_symbol n) ≡ true
unfolding base64_url_character base64_symbol
base64_url_character-base64_symbol n = ground arith

all_of-cons :
    (n : ℕ) (cs : Text)
    → all_of base64_url_character (base64_symbol n ∷ cs) ≡ all_of base64_url_character cs
unfolding all_of
all_of-cons n cs = ground (arith, base64_url_character-base64_symbol n)

all_of-nil : all_of base64_url_character [] ≡ true
unfolding all_of
all_of-nil = refl

all_of-to_base64_url : (bs : Text) → all_of base64_url_character (to_base64_url bs) ≡ true
unfolding to_base64_url
all_of-to_base64_url [] = all_of-nil
all_of-to_base64_url (a ∷ []) = simp (all_of-cons, all_of-nil)
all_of-to_base64_url (a ∷ b ∷ []) = simp (all_of-cons, all_of-nil)
all_of-to_base64_url (a ∷ b ∷ c ∷ rest) = simp (all_of-cons, all_of-to_base64_url rest)

module _ ⦃crypto : Crypto⦄ where
  -- A verifier of 43 to 128 unreserved characters has a challenge whenever SHA-256 has a digest of it:
  -- the digest in Base64url is always 43 characters of that alphabet, so that the challenge is never
  -- refused.
  pub challenge_for_verifier-accepts :
      (verifier : Text) {d : Text}
      → leb 43 (length verifier) ≡ true
      → leb (length verifier) 128 ≡ true
      → all_of verifier_character verifier ≡ true
      → sha256 verifier ≡ ok d
      → challenge_for_verifier verifier ≡ ok (to_base64_url d)
  unfolding challenge_for_verifier create_challenge sha256
  challenge_for_verifier-accepts verifier {d} l u v h =
      ground (arith, length-to_base64_url d, all_of-to_base64_url d)

  module _ (service : AuthorizationService) where
    -- A redemption that succeeds was asked for by an active client with the redirect URI and the
    -- verifier that the code is bound to, before the code expired, and takes the code out of the
    -- store.
    pub redeem_sound :
        (raw client_id redirect_uri verifier : Text) (now : Instant) (r : AuthorizationCodeStore)
        {c : AuthorizationCode}
        → (redeem service raw client_id redirect_uri verifier now r).1 ≡ ok c
        → (c.client_id ≡ client_id)
          × (c.redirect_uri ≡ redirect_uri)
          × (challenge_for_verifier verifier ≡ ok c.code_challenge)
          × (now < c.expires_at)
          × ((client : Client) × (require_active service.applications service.clients client_id
                ≡ ok client))
          × ((d : Text) × (digest service raw ≡ ok d)
              × (lookup (digest_key d) r ≡ some c)
              × (lookup (digest_key d) (redeem service raw client_id redirect_uri verifier now r).0
                  ≡ none))
    unfolding redeem expired_at
    redeem_sound raw client_id redirect_uri verifier now r {c} h =
        elim (Result-cases (require_active service.applications service.clients client_id)) [
          | inr (e, p) ↦ absurd (ground arith)
          | inl (client, p) ↦ elim (Result-cases (challenge_for_verifier verifier)) [
            | inr (e, q) ↦ absurd (ground arith)
            | inl (challenge, q) ↦ elim (Result-cases (digest service raw)) [
              | inr (e, s) ↦ absurd (ground arith)
              | inl (d, s) ↦
                  let sound =
                    consume_bound_sound r d now client_id redirect_uri challenge {c = c}
                      (ground arith) in
                  (
                    sound.1,
                    sound.2,
                    ground (arith, sound.3),
                    ground (arith, sound.4),
                    (client, p),
                    (d, s, sound.0, ground (arith, sound.5)),
                  )
            ]
          ]
        ]

    -- A code is redeemed at most once: after a redemption that succeeds, and any calls of the store
    -- that add no code of the same digest, no client redeems it again, whatever it presents.
    pub redeem-once :
        (raw client_id redirect_uri verifier client_id' redirect_uri' verifier' d : Text)
        (now later : Instant) (calls : List Call) (r : AuthorizationCodeStore)
        {c : AuthorizationCode}
        → digest service raw ≡ ok d
        → all_of (spares (digest_key d)) calls ≡ true
        → (redeem service raw client_id redirect_uri verifier now r).1 ≡ ok c
        → (redeem service raw client_id' redirect_uri' verifier' later
            (run (redeem service raw client_id redirect_uri verifier now r).0 calls)).1
          ≡ fail authentication_failed
    unfolding redeem
    redeem-once raw client_id redirect_uri verifier client_id' redirect_uri' verifier' d now later
          calls r {c} s spared h =
        elim (Result-cases (challenge_for_verifier verifier)) [
          | inr (e, q) ↦ absurd (ground arith)
          | inl (challenge, q) ↦ elim (Result-cases (challenge_for_verifier verifier')) [
            | inr (e, q') ↦ ground arith
            | inl (challenge', q') ↦
                let first : (consume_bound r d now client_id redirect_uri challenge).1 ≡ ok c =
                  ground arith in
                ground (
                  arith,
                  consume_bound-once r d now later client_id redirect_uri challenge client_id'
                      redirect_uri' challenge' calls {c = c} first spared,
                )
          ]
        ]

    -- A code that was handed out is redeemed by its client within the lifetime: with the redirect URI
    -- of the request and a verifier of its challenge the redemption succeeds, while the client is
    -- active, and gives the subject of the session and the scopes of the request.
    pub redeem-authorize :
        (session : Session) (request : AuthorizationRequest) (raw verifier : Text)
        (now later : Instant) (r : AuthorizationCodeStore) {grant : AuthorizationGrant}
        → (authorize service session request (ok raw) now r).1 ≡ ok grant
        → later < now + service.code_lifetime
        → challenge_for_verifier verifier ≡ ok request.code_challenge
        → (c : AuthorizationCode) × ((redeem service grant.code request.client_id
              request.redirect_uri verifier later
              (authorize service session request (ok raw) now r).0).1
            ≡ ok c)
          × (c.client_id ≡ request.client_id)
          × (c.identity ≡ session.identity)
          × (c.scopes ≡ request.scopes)
          × (c.authenticated_at ≡ session.authenticated_at)
    unfolding authorize redeem create add consume_bound expired_at
    redeem-authorize session request raw verifier now later r {grant} h live v =
        elim (Result-cases (digest service (bytes "opa_" ++ raw))) [
          | inr (e, s) ↦ absurd (ground arith)
          | inl (d, s) ↦
              let c : AuthorizationCode = record (code_of service session request d now) {
                expires_at = now + service.code_lifetime;
              } in
              (
                c,
                ground (
                  arith,
                  eq_refl (digest_key d),
                  lookup-insert (digest_key d) (digest_key d) c r,
                  eq_refl request.client_id,
                  eq_refl request.redirect_uri,
                  eq_refl request.code_challenge,
                ),
                refl,
                refl,
                refl,
                refl,
              )
        ]
