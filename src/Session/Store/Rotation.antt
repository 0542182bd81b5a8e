-- ===== src/Session/Store/Rotation.antt =====
-- src/session/repository.cpp: a rotation moves a session from its old token to the new one.
use openproof.Base.{
  ◌+◌, ◌<◌, ◌≡◌, some, none, Text, text_key, eq_iff, eq_refl, arith, lookup, insert, erase,
  lookup-insert, lookup-erase,
}
use openproof.Foundation.{Instant, ok, fail, authentication_failed}
use openproof.Security.{Crypto, constant_time_equals_iff}
use openproof.Session.Model.{Session, active, use_session, rotate_token}
use openproof.Session.Store.Consistency.{Agrees}
use openproof.Session.Store.Calls.{use_token-found, use_token-unknown}
use openproof.Session.Store.{SessionRepository, use_token, rotate}

module _ ⦃crypto : Crypto⦄ where
  abbrev pub rotated : SessionRepository → Text → Session → Text → Instant → SessionRepository
  rotated r i s replacement now = record {
    sessions = insert i (record s { last_seen_at = now; token_digest = replacement }) r.sessions;
    tokens = insert replacement i (erase s.token_digest r.tokens);
  }

  rotate-rotated :
      (r : SessionRepository) (i expected replacement : Text) (now : Instant) (s : Session)
      → lookup i r.sessions ≡ some s
      → (rotate r i expected replacement now).1 ≡ ok tt
      → ((rotate r i expected replacement now).0 ≡ rotated r i s replacement now)
        × (s.token_digest ≡ expected)
        × (s.state ≡ active)
        × (lookup replacement r.tokens ≡ none)
  unfolding rotate rotate_token use_session
  rotate-rotated r i expected replacement now s e h =
      ground (arith, constant_time_equals_iff s.token_digest expected)

  rotated-lookups :
      (r : SessionRepository) (i expected replacement : Text) (now : Instant) (s : Session)
      → Agrees r
      → lookup i r.sessions ≡ some s
      → s.token_digest ≡ expected
      → lookup replacement r.tokens ≡ none
      → (lookup expected (rotated r i s replacement now).tokens ≡ none)
        × (lookup replacement (rotated r i s replacement now).tokens ≡ some i)
        × (lookup i (rotated r i s replacement now).sessions
            ≡ some (record s { last_seen_at = now; token_digest = replacement }))
  rotated-lookups r i expected replacement now s a e same fresh = (
    ground (
      arith,
      lookup-insert replacement expected i (erase s.token_digest r.tokens),
      lookup-erase s.token_digest expected r.tokens,
      eq_iff s.token_digest expected,
      eq_iff replacement expected,
      a.indexed i s.token_digest,
    ),
    ground (
      arith,
      lookup-insert replacement replacement i (erase s.token_digest r.tokens),
      eq_refl replacement,
    ),
    ground (
      arith,
      lookup-insert i i (record s { last_seen_at = now; token_digest = replacement }) r.sessions,
      eq_refl i,
    ),
  )

  -- After a rotation that succeeded, in a repository whose maps agree, the old token is unknown,
  -- and until the deadlines of the session, the idle one counted from the rotation, the new token
  -- is accepted for it.
  pub use_token-rotate :
      (r : SessionRepository) (i expected replacement : Text) (now later : Instant) (s : Session)
      → Agrees r
      → lookup i r.sessions ≡ some s
      → (rotate r i expected replacement now).1 ≡ ok tt
      → later < s.absolute_expires_at
      → later < now + s.idle_timeout
      → ((use_token (rotate r i expected replacement now).0 expected later).1
          ≡ fail authentication_failed)
        × ((use_token (rotate r i expected replacement now).0 replacement later).1
            ≡ ok (record s { last_seen_at = later; token_digest = replacement }))
  unfolding use_session
  use_token-rotate r i expected replacement now later s a e h in_life in_idle =
      let facts = rotate-rotated r i expected replacement now s e h in
      let found = rotated-lookups r i expected replacement now s a e facts.1 facts.3 in
      let r' : SessionRepository = rotated r i s replacement now in
      let s' : Session = record s { last_seen_at = now; token_digest = replacement } in
      rw (facts.0) (
        ground (arith, use_token-unknown r' expected later found.0),
        ground (
          arith,
          use_token-found r' replacement i later s' found.1 found.2,
          constant_time_equals_iff replacement replacement,
          facts.2,
        ),
      )
