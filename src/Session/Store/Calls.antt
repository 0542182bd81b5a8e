-- ===== src/Session/Store/Calls.antt =====
-- src/session/repository.cpp: histories of calls. After any of them the index agrees with the
-- sessions, so the branch of `use` that reports an inconsistent store is dead code.
use openproof.Base.{
  ◌≡◌, ◌≢◌, ◌⊎◌, refl, some, none, List, [], ◌∷◌, Text, text_key, arith, Option-cases, lookup,
  insert, inl, inr,
}
use openproof.Foundation.{Instant, Status, ok, fail, internal, ◌>>◌, authentication_failed}
use openproof.Security.{Crypto}
use openproof.Session.Model.{Session, use_session, rotate_token, is_expired_at, is_active}
use openproof.Session.Model as Model
use openproof.Session.Store.Consistency.{
  Agrees, empty-Agrees, write-IsConsistent, add-IsConsistent, rotate-IsConsistent,
}
use openproof.Session.Store.Loops.{revoke_if, revoke_if-keeps, revoke_each-map_values}
use openproof.Session.Store.Bulk.{map_values-IsConsistent, purge-IsConsistent}
use openproof.Session.Store.{
  SessionRepository, empty, add, use_token, use_found, after_use, rotate, rotate_found,
  after_rotation, revoke, revoke_all, purge_expired,
}

pub data Call : Type 0 where
  adds : Session → Call
  uses : Text → Instant → Call
  rotates : Text → Text → Text → Instant → Call
  revokes : Text → Instant → Call
  revokes_all : Text → Instant → Call
  purges : Instant → Call

add-Agrees : (r : SessionRepository) (s : Session) → Agrees r → Agrees (add r s).0
unfolding add
add-Agrees r s c = ground (arith, add-IsConsistent r.sessions r.tokens s c)

revoke-Agrees :
    (r : SessionRepository) (i : Text) (now : Instant) → Agrees r → Agrees (revoke r i now).0
unfolding revoke Model.revoke
revoke-Agrees r i now c = elim (Option-cases (lookup i r.sessions)) [
  | inl e ↦ rw (e, revoke) c
  | inr (s, e) ↦
      rw (e, revoke)
        (write-IsConsistent r.sessions r.tokens i s (Model.revoke s now).0 c e (ground arith)
          (ground arith))
]

revoke_all-Agrees :
    (r : SessionRepository) (identity : Text) (now : Instant)
    → Agrees r
    → Agrees (revoke_all r identity now).0
unfolding revoke_all
revoke_all-Agrees r identity now c = rw (revoke_each-map_values identity now r.sessions) (
    map_values-IsConsistent (revoke_if identity now) (revoke_if-keeps identity now) r.sessions
      r.tokens c)

module _ ⦃crypto : Crypto⦄ where
  use_session-keeps :
      (s : Session) (presented : Text) (now : Instant)
      → ((use_session s presented now).0.id ≡ s.id)
        × ((use_session s presented now).0.token_digest ≡ s.token_digest)
  unfolding use_session
  use_session-keeps s presented now = (ground arith, ground arith)

  after_use_lem :
      (r : SessionRepository) (i : Text) (p : Session × Status)
      → ((after_use r i p).0 ≡ record r { sessions = insert i p.0 r.sessions })
        × ((after_use r i p).1 ≡ (p.1 >> ok p.0))
  unfolding after_use
  after_use_lem r i (s, ok u) = (refl, refl)
  after_use_lem r i (s, fail e) = (refl, refl)

  -- A use of an indexed token is a use of its session, written back whether or not it succeeds.
  pub use_token-found :
      (r : SessionRepository) (token i : Text) (now : Instant) (s : Session)
      → lookup token r.tokens ≡ some i
      → lookup i r.sessions ≡ some s
      → ((use_token r token now).0
          ≡ record r { sessions = insert i (use_session s token now).0 r.sessions })
        × ((use_token r token now).1
            ≡ ((use_session s token now).1 >> ok (use_session s token now).0))
  unfolding use_token
  use_token-found r token i now s h e =
      rw (h, use_token) (rw (e, use_found) (after_use_lem r i (use_session s token now)))

  pub use_token-unknown :
      (r : SessionRepository) (token : Text) (now : Instant)
      → lookup token r.tokens ≡ none
      → use_token r token now ≡ (r, fail authentication_failed)
  unfolding use_token
  use_token-unknown r token now h = rw (h, use_token)

  -- In a consistent repository a token is unknown or leads to the session with its digest.
  pub token_cases :
      (r : SessionRepository) (token : Text)
      → Agrees r
      → (lookup token r.tokens ≡ none)
        ⊎ ((i : Text) × (s : Session) × (lookup token r.tokens ≡ some i)
            × (lookup i r.sessions ≡ some s)
            × (s.token_digest ≡ token)
            × (s.id ≡ i))
  token_cases r token c = elim (Option-cases (lookup token r.tokens)) [
    | inl e ↦ inl e
    | inr (i, e) ↦ elim (Option-cases (lookup i r.sessions)) [
      | inl f ↦ absurd (ground (arith, c.owned token i))
      | inr (s, f) ↦ inr (i, s, e, f, ground (arith, c.owned token i), c.by_id i s f)
    ]
  ]

  use_token-Agrees :
      (r : SessionRepository) (token : Text) (now : Instant)
      → Agrees r
      → Agrees (use_token r token now).0
  use_token-Agrees r token now c = elim (token_cases r token c) [
    | inl e ↦ rw (use_token-unknown r token now e) c
    | inr (i, s, e, f, _, _) ↦ rw ((use_token-found r token i now s e f).0) (
        write-IsConsistent r.sessions r.tokens i s (use_session s token now).0 c f
          (use_session-keeps s token now).0 (use_session-keeps s token now).1)
  ]

  -- What a rotation leaves of a session: its identifier, and the old digest or the new one.
  pub rotate_token-keeps :
      (s : Session) (expected replacement : Text) (now : Instant) (p : Session × Status)
      → rotate_token s expected replacement now ≡ p
      → (p.0.id ≡ s.id)
        × (p.1 ≡ ok tt → p.0.token_digest ≡ replacement)
        × (p.1 ≢ ok tt → p.0.token_digest ≡ s.token_digest)
  unfolding rotate_token use_session
  rotate_token-keeps s expected replacement now p h =
      (ground arith, λ ok_p. ground arith, λ bad. ground arith)

  after_rotation-Agrees :
      (r : SessionRepository) (i replacement : Text) (s : Session) (p : Session × Status)
      → Agrees r
      → lookup i r.sessions ≡ some s
      → lookup replacement r.tokens ≡ none
      → p.0.id ≡ s.id
      → (p.1 ≡ ok tt → p.0.token_digest ≡ replacement)
      → (p.1 ≢ ok tt → p.0.token_digest ≡ s.token_digest)
      → Agrees (after_rotation r i s.token_digest replacement p).0
  unfolding after_rotation
  after_rotation-Agrees r i replacement s (u, ok tt) c e fresh same_id new old =
      rotate-IsConsistent r.sessions r.tokens i replacement s u c e fresh same_id (new refl)
  after_rotation-Agrees r i replacement s (u, fail x) c e fresh same_id new old =
      write-IsConsistent r.sessions r.tokens i s u c e same_id (old (λ h. cc))

  rotate-found :
      (r : SessionRepository) (i expected replacement : Text) (now : Instant) (s : Session)
      → lookup i r.sessions ≡ some s
      → lookup replacement r.tokens ≡ none
      → rotate r i expected replacement now
        ≡ after_rotation r i s.token_digest replacement (rotate_token s expected replacement now)
  unfolding rotate
  rotate-found r i expected replacement now s e fresh = rw (e, rotate) (rw (fresh, rotate_found))

  rotate-Agrees :
      (r : SessionRepository) (i expected replacement : Text) (now : Instant)
      → Agrees r
      → Agrees (rotate r i expected replacement now).0
  rotate-Agrees r i expected replacement now c = elim (Option-cases (lookup i r.sessions)) [
    | inl e ↦ unfold rotate in rw (e, rotate) c
    | inr (s, e) ↦ elim (Option-cases (lookup replacement r.tokens)) [
      | inl fresh ↦
          let k = rotate_token-keeps s expected replacement now _ refl in
          rw (rotate-found r i expected replacement now s e fresh) (
            after_rotation-Agrees r i replacement s (rotate_token s expected replacement now) c e
              fresh k.0 k.1 k.2)
      | inr (j, taken) ↦ unfold rotate in rw (e, rotate) (rw (taken, rotate_found) c)
    ]
  ]

  unfoldable pub step : SessionRepository → Call → SessionRepository
  step r (adds s) = (add r s).0
  step r (uses token now) = (use_token r token now).0
  step r (rotates id expected replacement now) = (rotate r id expected replacement now).0
  step r (revokes id now) = (revoke r id now).0
  step r (revokes_all identity now) = (revoke_all r identity now).0
  step r (purges now) = (purge_expired r now).0

  unfoldable pub run : SessionRepository → List Call → SessionRepository
  run r [] = r
  run r (c ∷ cs) = run (step r c) cs

  pub step-Agrees : (r : SessionRepository) (c : Call) → Agrees r → Agrees (step r c)
  unfolding step purge_expired
  step-Agrees r (adds s) a = add-Agrees r s a
  step-Agrees r (uses token now) a = use_token-Agrees r token now a
  step-Agrees r (rotates id expected replacement now) a =
      rotate-Agrees r id expected replacement now a
  step-Agrees r (revokes id now) a = revoke-Agrees r id now a
  step-Agrees r (revokes_all identity now) a = revoke_all-Agrees r identity now a
  step-Agrees r (purges now) a = purge-IsConsistent now r.sessions r.tokens a

  pub run-Agrees : (r : SessionRepository) (cs : List Call) → Agrees r → Agrees (run r cs)
  unfolding run
  run-Agrees r [] a = a
  run-Agrees r (c ∷ cs) a = run-Agrees (step r c) cs (step-Agrees r c a)

  -- From an empty repository, after any history of calls, every indexed digest leads to a session
  -- with that digest, every session is indexed under its digest, and both maps hold each key once.
  pub run-empty-Agrees : (cs : List Call) → Agrees (run empty cs)
  run-empty-Agrees cs = run-Agrees empty cs empty-Agrees

  -- From an empty repository, after any history of calls, a use never reports an inconsistent
  -- store.
  pub use_token-run_consistent :
      (cs : List Call) (token : Text) (now : Instant)
      → (use_token (run empty cs) token now).1 ≢ fail internal
  unfolding use_session
  use_token-run_consistent cs token now h =
      elim (token_cases (run empty cs) token (run-empty-Agrees cs)) [
        | inl e ↦ ground (arith, use_token-unknown (run empty cs) token now e)
        | inr (i, s, e, f, _, _) ↦ ground (arith, use_token-found (run empty cs) token i now s e f)
      ]
