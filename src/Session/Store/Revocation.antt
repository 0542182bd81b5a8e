-- ===== src/Session/Store/Revocation.antt =====
-- src/session/repository.cpp: a revoked session stays out of use, and `revokeAll` reaches them all.
use openproof.Base.{
  ◌≡◌, ◌≢◌, refl, Bool, false, some, none, Option, List, [], ◌∷◌, Text, text_key, ◌==◌, eq_iff,
  eq_refl, arith, All, lookup, lookup-insert, lookup-map_values, inl, inr, if◌then◌else◌, ◌&&◌,
}
use openproof.Foundation.{Instant, ok}
use openproof.Security.{Crypto}
use openproof.Session.Model.{Session, revoked, use_session, rotate_token, is_active}
use openproof.Session.Model as Model
use openproof.Session.Store.Consistency.{Agrees}
use openproof.Session.Store.Loops.{revoke_if, revoke_each-map_values, count_active}
use openproof.Session.Store.Bulk.{purge-lookup}
use openproof.Session.Store.Calls.{
  Call, adds, uses, rotates, revokes, revokes_all, purges, step, run, run-Agrees, token_cases,
  use_token-found, use_token-unknown, step-Agrees,
}
use openproof.Session.Store.{
  SessionRepository, add, use_token, rotate, revoke, revoke_all, purge_expired,
}

abbrev pub is_live : Option Session → Bool
is_live none = false
is_live (some s) = is_active s.state

-- The session with identifier `i`, if there is one, is revoked or expired.
abbrev pub IsDead : Text → SessionRepository → Type 0
IsDead i r = is_live (lookup i r.sessions) ≡ false

abbrev pub IsNoAdd : Text → Call → Type 0
IsNoAdd i (adds s) = s.id ≢ i
IsNoAdd i (uses token now) = Unit
IsNoAdd i (rotates j expected replacement now) = Unit
IsNoAdd i (revokes j now) = Unit
IsNoAdd i (revokes_all identity now) = Unit
IsNoAdd i (purges now) = Unit

-- No call of the history adds a session under the identifier.
abbrev pub AddsNone : Text → List Call → Type 0
AddsNone i = All (IsNoAdd i)

pub revoke-IsDead :
    (r : SessionRepository) (i : Text) (now : Instant) (found : Option Session)
    → lookup i r.sessions ≡ found
    → (revoke r i now).1 ≡ ok tt
    → IsDead i (revoke r i now).0
unfolding revoke Model.revoke
revoke-IsDead r i now none e h = ground arith
revoke-IsDead r i now (some s) e h =
    ground (arith, lookup-insert i i (Model.revoke s now).0 r.sessions, eq_refl i)

add-IsDead :
    (r : SessionRepository) (i : Text) (s : Session) → s.id ≢ i → IsDead i r → IsDead i (add r s).0
unfolding add
add-IsDead r i s other d = ground (arith, lookup-insert s.id i s r.sessions, eq_iff s.id i)

revokes-IsDead :
    (r : SessionRepository) (i j : Text) (now : Instant) (found : Option Session)
    → lookup j r.sessions ≡ found
    → IsDead i r
    → IsDead i (revoke r j now).0
unfolding revoke Model.revoke
revokes-IsDead r i j now none e d = ground arith
revokes-IsDead r i j now (some s) e d =
    ground (arith, lookup-insert j i (Model.revoke s now).0 r.sessions, eq_iff j i)

revoke_all-IsDead :
    (r : SessionRepository) (i identity : Text) (now : Instant)
    → IsDead i r
    → IsDead i (revoke_all r identity now).0
unfolding revoke_all revoke_if
revoke_all-IsDead r i identity now d = ground (
  arith,
  revoke_each-map_values identity now r.sessions,
  lookup-map_values (revoke_if identity now) i r.sessions,
)

module _ ⦃crypto : Crypto⦄ where
  uses-IsDead :
      (r : SessionRepository) (i token : Text) (now : Instant)
      → Agrees r
      → IsDead i r
      → IsDead i (use_token r token now).0
  unfolding use_session
  uses-IsDead r i token now a d = elim (token_cases r token a) [
    | inl e ↦ rw (use_token-unknown r token now e) d
    | inr (j, s, e, f, _, _) ↦ ground (
      arith,
      use_token-found r token j now s e f,
      lookup-insert j i (use_session s token now).0 r.sessions,
      eq_iff j i,
    )
  ]

  rotates-IsDead :
      (r : SessionRepository) (i j expected replacement : Text) (now : Instant)
      (found : Option Session)
      → lookup j r.sessions ≡ found
      → IsDead i r
      → IsDead i (rotate r j expected replacement now).0
  unfolding rotate rotate_token use_session
  rotates-IsDead r i j expected replacement now none e d = ground arith
  rotates-IsDead r i j expected replacement now (some s) e d =
      ground (
        arith,
        lookup-insert j i (rotate_token s expected replacement now).0 r.sessions,
        eq_iff j i,
      )

  step-IsDead :
      (r : SessionRepository) (i : Text) (c : Call)
      → Agrees r
      → IsNoAdd i c
      → IsDead i r
      → IsDead i (step r c)
  unfolding step purge_expired
  step-IsDead r i (adds s) a n d = add-IsDead r i s n d
  step-IsDead r i (uses token now) a n d = uses-IsDead r i token now a d
  step-IsDead r i (rotates j expected replacement now) a n d =
      rotates-IsDead r i j expected replacement now _ refl d
  step-IsDead r i (revokes j now) a n d = revokes-IsDead r i j now _ refl d
  step-IsDead r i (revokes_all identity now) a n d = revoke_all-IsDead r i identity now d
  step-IsDead r i (purges now) a n d = ground (arith, purge-lookup now r.sessions r.tokens a i)

  run-IsDead :
      (r : SessionRepository) (i : Text) (cs : List Call)
      → Agrees r
      → AddsNone i cs
      → IsDead i r
      → IsDead i (run r cs)
  unfolding run
  run-IsDead r i [] a n d = d
  run-IsDead r i (c ∷ cs) a n d =
      run-IsDead (step r c) i cs (step-Agrees r c a) n.1 (step-IsDead r i c a n.0 d)

  -- No use returns a session that is dead.
  pub use_token-IsDead :
      (r : SessionRepository) (i token : Text) (now : Instant) {s : Session}
      → Agrees r
      → IsDead i r
      → (use_token r token now).1 ≡ ok s
      → s.id ≢ i
  unfolding use_session
  use_token-IsDead r i token now {s} a d h same = elim (token_cases r token a) [
    | inl e ↦ ground (arith, use_token-unknown r token now e)
    | inr (j, u, e, f, _, id_is) ↦ ground (arith, use_token-found r token j now u e f)
  ]

  -- In a repository whose maps agree, once the revocation of a session has succeeded, no later use
  -- of any token returns that session, whatever calls come between, so long as none of them adds a
  -- session anew under the same identifier.
  pub use_token-run-revoke :
      (r : SessionRepository) (i : Text) (now : Instant) (cs : List Call) (token : Text)
      (later : Instant) {s : Session}
      → Agrees r
      → (revoke r i now).1 ≡ ok tt
      → AddsNone i cs
      → (use_token (run (revoke r i now).0 cs) token later).1 ≡ ok s
      → s.id ≢ i
  unfolding step
  use_token-run-revoke r i now cs token later a h n =
      let agrees = step-Agrees r (revokes i now) a in
      use_token-IsDead (run (revoke r i now).0 cs) i token later (run-Agrees _ cs agrees)
        (run-IsDead _ i cs agrees n (revoke-IsDead r i now _ refl h))

-- `revokeAll` never fails. It counts the active sessions of the identity, revokes each of these
-- at the given instant, and leaves every other session as it was.
pub revoke_all_complete :
    (r : SessionRepository) (identity : Text) (now : Instant) (i : Text) (s : Session)
    → lookup i r.sessions ≡ some s
    → ((revoke_all r identity now).1 ≡ ok (count_active identity r.sessions))
      × (lookup i (revoke_all r identity now).0.sessions
          ≡ some (
              if (s.identity == identity) && is_active s.state
              then record s { state = revoked; revoked_at = some now }
              else s))
unfolding revoke_all revoke_if
revoke_all_complete r identity now i s e =
    let each = revoke_each-map_values identity now r.sessions in
    (
      ground (arith, each),
      ground (arith, each, lookup-map_values (revoke_if identity now) i r.sessions),
    )
