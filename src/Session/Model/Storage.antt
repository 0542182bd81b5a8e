-- ===== src/Session/Model/Storage.antt =====
-- src/session/model.cpp: what `create` makes, and what each operation leaves, `restore` accepts.
use openproof.Base.{◌≤◌, ◌≡◌, Option, Text, arith}
use openproof.Foundation.{Instant, Duration, ok}
use openproof.Security.{Crypto}
use openproof.Identity.Assurance.{AssuranceLevel, AuthenticationStrength}
use openproof.Session.Model.Lifetime.{Event, uses, rotates, revokes, expires, step}
use openproof.Session.Model.{
  Session, active, create, restore, use_session, rotate_token, revoke, mark_expired,
}

-- A session that was created is active, and is accepted as it is when it is read back from
-- storage.
pub restore-create :
    (id identity provider : Text) (assurance : AssuranceLevel) (strength : AuthenticationStrength)
    (authenticated_at : Instant) (token_digest : Text) (issued_at : Instant)
    (absolute_lifetime idle_timeout : Duration) (user_agent remote_address : Option Text)
    {s : Session}
    → create id identity provider assurance strength authenticated_at token_digest issued_at
        absolute_lifetime idle_timeout user_agent remote_address
      ≡ ok s
    → (restore s ≡ ok s) × (s.state ≡ active)
unfolding create restore
restore-create id identity provider assurance strength authenticated_at token_digest issued_at
      absolute_lifetime idle_timeout user_agent remote_address h =
    ground arith

module _ ⦃crypto : Crypto⦄ where
  -- The clock does not run backwards between two uses of the session.
  abbrev pub IsInOrder : Session → Event → Type 0
  IsInOrder s (uses presented now) = s.last_seen_at ≤ now
  IsInOrder s (rotates expected replacement now) = s.last_seen_at ≤ now
  IsInOrder s (revokes now) = Unit
  IsInOrder s expires = Unit

  -- A session that storage accepts is one that storage accepts after a use, a rotation, a
  -- revocation or an expiry, refused ones included, when the instant of a use or a rotation is not
  -- before the last use.
  pub restore-step :
      (s : Session) (e : Event)
      → IsInOrder s e
      → restore s ≡ ok s
      → restore (step s e) ≡ ok (step s e)
  unfolding step use_session rotate_token revoke mark_expired restore
  restore-step s (uses presented now) h v = ground arith
  restore-step s (rotates expected replacement now) h v = ground arith
  restore-step s (revokes now) h v = ground arith
  restore-step s expires h v = ground arith
