-- ===== src/Session/Store/Refinement.antt =====
-- src/session/repository.cpp: the repository with its index does what the reference store does.
use openproof.Base.{
  ◌-◌, ◌≡◌, refl, not, none, some, is_some, List, [], ◌∷◌, Text, text_key, arith, inl, inr, lookup,
  insert, length, retain, Option-cases, sym,
}
use openproof.Foundation.{ok, fail, Status, Instant}
use openproof.Security.{Crypto}
use openproof.Session.Model.{Session, is_expired_at, rotate_token}
use openproof.Session.Store.Consistency.{Agrees, empty-Agrees}
use openproof.Session.Store.Loops.{revoke_each-map_values, purge_each-retain, purge_each-length}
use openproof.Session.Store.Calls.{
  Call, adds, uses, rotates, revokes, revokes_all, purges, step, step-Agrees, use_token-found,
  use_token-unknown, token_cases,
}
use openproof.Session.Store.Reference.{
  find_digest, find_digest-lookup, find_digest-some, Outcome, done, used, counted, add_reference,
  reference, reference_outcomes,
}
use openproof.Session.Store.{
  SessionRepository, empty, add, use_token, rotate, after_rotation, revoke, revoke_all,
  purge_expired, purge_each,
}

-- An indexed digest is that of the session that the reference store finds, and no other is found.
find_digest-indexed :
    (r : SessionRepository) (d i : Text) (s : Session)
    → Agrees r
    → lookup d r.tokens ≡ some i
    → lookup i r.sessions ≡ some s
    → s.token_digest ≡ d
    → find_digest d r.sessions ≡ some (i, s)
find_digest-indexed r d i s c h e p = elim (Option-cases (find_digest d r.sessions)) [
  | inl q ↦ absurd (ground (arith, find_digest-some r.sessions i s e))
  | inr ((j, u), q) ↦
      let (f, g) = find_digest-lookup d r.sessions j u c.sessions_sorted q in
      let at : lookup d r.tokens ≡ some j = c.indexed j d (ground arith) in
      let same : j ≡ i = ground arith in
      let same_session : u ≡ s = ground (arith, same) in rw (q, same, same_session) refl
]

find_digest-unknown :
    (r : SessionRepository) (d : Text)
    → Agrees r
    → lookup d r.tokens ≡ none
    → find_digest d r.sessions ≡ none
find_digest-unknown r d c h = elim (Option-cases (find_digest d r.sessions)) [
  | inl q ↦ q
  | inr ((j, u), q) ↦
      let (f, g) = find_digest-lookup d r.sessions j u c.sessions_sorted q in
      absurd (ground (arith, c.indexed j d (ground arith)))
]

-- So a digest is in the index exactly if it is found.
find_digest-contains :
    (r : SessionRepository) (d : Text)
    → Agrees r
    → is_some (find_digest d r.sessions) ≡ is_some (lookup d r.tokens)
find_digest-contains r d c = elim (Option-cases (lookup d r.tokens)) [
  | inl e ↦ rw (e, find_digest-unknown r d c e) refl
  | inr (i, e) ↦ elim (Option-cases (lookup i r.sessions)) [
    | inl f ↦ absurd (ground (arith, c.owned d i e))
    | inr (s, f) ↦ rw (e, find_digest-indexed r d i s c e f (ground (arith, c.owned d i e))) refl
  ]
]

module _ ⦃crypto : Crypto⦄ where
  -- What a call of the repository returns.
  unfoldable pub outcome : SessionRepository → Call → Outcome
  outcome r (adds s) = done ((add r s).1)
  outcome r (uses token now) = used ((use_token r token now).1)
  outcome r (rotates id expected replacement now) = done ((rotate r id expected replacement now).1)
  outcome r (revokes id now) = done ((revoke r id now).1)
  outcome r (revokes_all identity now) = counted ((revoke_all r identity now).1)
  outcome r (purges now) = counted (ok (purge_expired r now).1)

  unfoldable pub outcomes : SessionRepository → List Call → List Outcome
  outcomes r [] = []
  outcomes r (c ∷ calls) = outcome r c ∷ outcomes (step r c) calls

  Follows : SessionRepository → Call → Type 0
  Follows r c =
      ((step r c).sessions ≡ (reference r.sessions c).0)
      × (outcome r c ≡ (reference r.sessions c).1)

  add-Follows : (r : SessionRepository) (s : Session) → Agrees r → Follows r (adds s)
  unfolding Follows step outcome reference add_reference add
  add-Follows r s c = (
    ground (arith, find_digest-contains r s.token_digest c),
    ground (arith, find_digest-contains r s.token_digest c),
  )

  use-Follows :
      (r : SessionRepository) (token : Text) (now : Instant) → Agrees r → Follows r (uses token now)
  unfolding Follows step outcome reference
  use-Follows r token now c = elim (token_cases r token c) [
    | inl e ↦
        let unknown = use_token-unknown r token now e in
        let none_found = find_digest-unknown r token c e in
        (ground (arith, unknown, none_found), ground (arith, unknown, none_found))
    | inr (i, s, e, f, d, _) ↦
        let (state, result) = use_token-found r token i now s e f in
        let found = find_digest-indexed r token i s c e f d in
        (ground (arith, state, found), ground (arith, result, found))
  ]

  after_rotation_lem :
      (r : SessionRepository) (i old replacement : Text) (p : Session × Status)
      → ((after_rotation r i old replacement p).0.sessions ≡ insert i p.0 r.sessions)
        × ((after_rotation r i old replacement p).1 ≡ p.1)
  unfolding after_rotation
  after_rotation_lem r i old replacement (s, ok u) = (refl, refl)
  after_rotation_lem r i old replacement (s, fail e) = (refl, refl)

  rotate-Follows :
      (r : SessionRepository) (i expected replacement : Text) (now : Instant)
      → Agrees r
      → Follows r (rotates i expected replacement now)
  unfolding Follows step outcome reference rotate
  rotate-Follows r i expected replacement now c =
      let same = find_digest-contains r replacement c in
      elim (Option-cases (lookup i r.sessions)) [
        | inl e ↦ (ground arith, ground arith)
        | inr (s, e) ↦
            let (state, result) =
              after_rotation_lem r i s.token_digest replacement
                (rotate_token s expected replacement now) in
            (ground (arith, same, state), ground (arith, same, result))
      ]

  revoke-Follows : (r : SessionRepository) (i : Text) (now : Instant) → Follows r (revokes i now)
  unfolding Follows step outcome reference revoke
  revoke-Follows r i now = elim (Option-cases (lookup i r.sessions)) [
    | inl e ↦ (ground arith, ground arith)
    | inr (s, e) ↦ (ground arith, ground arith)
  ]

  revoke_all-Follows :
      (r : SessionRepository) (identity : Text) (now : Instant)
      → Follows r (revokes_all identity now)
  unfolding Follows step outcome reference revoke_all
  revoke_all-Follows r identity now =
      let each = revoke_each-map_values identity now r.sessions in
      (ground (arith, each), ground (arith, each))

  purge-Follows : (r : SessionRepository) (now : Instant) → Follows r (purges now)
  unfolding Follows step outcome reference purge_expired
  purge-Follows r now =
      let kept = purge_each-retain now r.sessions r.tokens in
      let count = purge_each-length now r.sessions r.tokens in
      let number : (purge_each now r.sessions r.tokens).2
          ≡ length r.sessions - length (retain (λ s. not (is_expired_at s now)) r.sessions) =
        rw (sym kept) (omega (arith, count)) in
      (kept, rw number refl)

  step-Follows : (r : SessionRepository) (c : Call) → Agrees r → Follows r c
  step-Follows r (adds s) a = add-Follows r s a
  step-Follows r (uses token now) a = use-Follows r token now a
  step-Follows r (rotates i expected replacement now) a =
      rotate-Follows r i expected replacement now a
  step-Follows r (revokes i now) a = revoke-Follows r i now
  step-Follows r (revokes_all identity now) a = revoke_all-Follows r identity now
  step-Follows r (purges now) a = purge-Follows r now

  outcomes-follow :
      (r : SessionRepository) (calls : List Call)
      → Agrees r
      → outcomes r calls ≡ reference_outcomes r.sessions calls
  unfolding outcomes reference_outcomes Follows
  outcomes-follow r [] a = refl
  outcomes-follow r (c ∷ calls) a =
      let (state, result) = step-Follows r c a in
      let rest = outcomes-follow (step r c) calls (step-Agrees r c a) in
      rw (result, rest, state) refl

  -- The repository with its index of token digests implements the reference store, which keeps the
  -- sessions only and goes through them to find a digest: from empty stores, every history of calls
  -- returns the same outcomes of both.
  pub outcomes-reference : (calls : List Call) → outcomes empty calls ≡ reference_outcomes [] calls
  unfolding empty
  outcomes-reference calls = outcomes-follow empty calls empty-Agrees
