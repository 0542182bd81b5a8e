-- ===== src/Session/Model/Lifetime.antt =====
-- src/session/model.cpp: when a session accepts its token, and what no history brings back.
use openproof.Base.{◌≤◌, ◌<◌, ◌+◌, ◌≡◌, refl, ◌↔◌, ◌⊎◌, inl, inr, false, List, [], ◌∷◌, Text, arith}
use openproof.Foundation.{Instant, ok, fail, authentication_failed}
use openproof.Security.{Crypto, constant_time_equals_iff}
use openproof.Session.Model.{
  Session, active, is_active, use_session, rotate_token, revoke, mark_expired,
}

module _ ⦃crypto : Crypto⦄ where
  -- What a use of a session wants.
  pub record Accepts (s : Session) (presented : Text) (now : Instant) : Type 0 where
    pub is_live : s.state ≡ active
    pub in_lifetime : now < s.absolute_expires_at
    pub in_idle_window : now < s.last_seen_at + s.idle_timeout
    pub same_token : s.token_digest ≡ presented

  accepted :
      (s : Session) (presented : Text) (now : Instant)
      → (use_session s presented now).1 ≡ ok tt
      → Accepts s presented now
  unfolding use_session
  accepted s presented now h = ground (arith, constant_time_equals_iff s.token_digest presented)

  accepts :
      (s : Session) (presented : Text) (now : Instant)
      → Accepts s presented now
      → (use_session s presented now).1 ≡ ok tt
  unfolding use_session
  accepts s presented now a = ground (arith, constant_time_equals_iff s.token_digest presented)

  -- A use succeeds exactly for an active session, before its absolute and its idle deadline, with
  -- its own token.
  pub use_session-Accepts :
      (s : Session) (presented : Text) (now : Instant)
      → ((use_session s presented now).1 ≡ ok tt) ↔ Accepts s presented now
  use_session-Accepts s presented now = (accepted s presented now, accepts s presented now)

  -- What can be done to a session.
  pub data Event : Type 0 where
    uses : Text → Instant → Event
    rotates : Text → Text → Instant → Event
    revokes : Instant → Event
    expires : Event

  unfoldable pub step : Session → Event → Session
  step s (uses presented now) = (use_session s presented now).0
  step s (rotates expected replacement now) = (rotate_token s expected replacement now).0
  step s (revokes now) = (revoke s now).0
  step s expires = mark_expired s

  unfoldable pub run : Session → List Event → Session
  run s [] = s
  run s (e ∷ es) = run (step s e) es

  step-keeps_end :
      (s : Session) (e : Event)
      → ((step s e).absolute_expires_at ≡ s.absolute_expires_at)
        × (is_active s.state ≡ false → is_active (step s e).state ≡ false)
  unfolding step use_session rotate_token revoke mark_expired
  step-keeps_end s (uses presented now) = (ground arith, ground arith)
  step-keeps_end s (rotates expected replacement now) = (ground arith, ground arith)
  step-keeps_end s (revokes now) = (ground arith, ground arith)
  step-keeps_end s expires = (ground arith, ground arith)

  run-keeps_end :
      (s : Session) (es : List Event)
      → ((run s es).absolute_expires_at ≡ s.absolute_expires_at)
        × (is_active s.state ≡ false → is_active (run s es).state ≡ false)
  unfolding run
  run-keeps_end s [] = (refl, λ h. h)
  run-keeps_end s (e ∷ es) = ground (arith, step-keeps_end s e, run-keeps_end (step s e) es)

  refused :
      (s : Session) (presented : Text) (now : Instant)
      → (is_active s.state ≡ false) ⊎ (s.absolute_expires_at ≤ now)
      → (use_session s presented now).1 ≡ fail authentication_failed
  unfolding use_session
  refused s presented now h = ground arith

  -- Once a session is revoked or expired, or its absolute deadline has come, it refuses every
  -- token, whatever uses, rotations, revocations and expiries come between.
  pub use_session-run_ended :
      (s : Session) (es : List Event) (presented : Text) (now : Instant)
      → (is_active s.state ≡ false) ⊎ (s.absolute_expires_at ≤ now)
      → (use_session (run s es) presented now).1 ≡ fail authentication_failed
  use_session-run_ended s es presented now (inl h) =
      refused (run s es) presented now (inl ((run-keeps_end s es).1 h))
  use_session-run_ended s es presented now (inr h) =
      refused (run s es) presented now (inr (rw ((run-keeps_end s es).0) h))
