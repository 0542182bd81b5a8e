-- ===== src/Identity/Transaction/Once.antt =====
-- src/identity/provider/transaction.cpp: one presentation decides a transaction.
use openproof.Base.{
  ◌+◌, ◌≡◌, ◌↔◌, ◌<◌, Bool, true, false, not, some, List, [], ◌∷◌, Text, text_key, ◌!=◌, eq_refl,
  arith, inl, inr, Option-cases, lookup, insert, sym, subst, lookup-insert, lookup-retain, IsSorted,
  insert-IsSorted, retain-IsSorted, all_of,
}
use openproof.Foundation.{ok, Instant, Duration, succeeded, Result-cases}
use openproof.Security.{Crypto, sha256, constant_time_equals_iff}
use openproof.Identity.Transaction.{
  AuthenticationTransaction, InteractionModel, is_pending, is_expired_at, create,
}
use openproof.Identity.Transaction as Transaction
use openproof.Identity.Transaction.Store.{TransactionStore, begin, consume, purge_expired}

pub data Call : Type 0 where
  begins : AuthenticationTransaction → Call
  consumes : (id nonce binding : Text) (now : Instant) → Call
  purges : Instant → Call

-- The call begins no transaction of the identifier.
unfoldable pub spares : Text → Call → Bool
spares id (begins t) = t.id != id
spares id (consumes id' nonce binding now) = true
spares id (purges now) = true

-- No transaction of the identifier is pending.
unfoldable Decided : Text → TransactionStore → Type 0
Decided id r = (t : AuthenticationTransaction) → lookup id r ≡ some t → is_pending t.state ≡ false

module _ ⦃crypto : Crypto⦄ where
  unfoldable pub step : TransactionStore → Call → TransactionStore
  step r (begins t) = (begin r t).0
  step r (consumes id nonce binding now) = (consume r id nonce binding now).0
  step r (purges now) = (purge_expired r now).0

  unfoldable pub run : TransactionStore → List Call → TransactionStore
  run r [] = r
  run r (c ∷ calls) = run (step r c) calls

  -- What a presentation leaves in the store.
  consume-state :
      (r : TransactionStore) (id nonce binding : Text) (now : Instant)
      {t : AuthenticationTransaction}
      → lookup id r ≡ some t
      → (consume r id nonce binding now).0 ≡ insert id (Transaction.consume t nonce binding now).0 r
  unfolding consume
  consume-state r id nonce binding now {t} h =
      elim (Result-cases (Transaction.consume t nonce binding now).1) [
        | inl (d, p) ↦ ground arith
        | inr (e, p) ↦ ground arith
      ]

  consume-IsSorted :
      (r : TransactionStore) (id nonce binding : Text) (now : Instant)
      → IsSorted r
      → IsSorted (consume r id nonce binding now).0
  unfolding consume
  consume-IsSorted r id nonce binding now s = elim (Option-cases (lookup id r)) [
    | inl p ↦ rw p s
    | inr (t, p) ↦
        subst (λ m. IsSorted m) (sym (consume-state r id nonce binding now p))
          (insert-IsSorted id (Transaction.consume t nonce binding now).0 r s)
  ]

  step-IsSorted : (r : TransactionStore) (c : Call) → IsSorted r → IsSorted (step r c)
  unfolding step begin purge_expired
  step-IsSorted r (begins t) s = ground (arith, insert-IsSorted t.id t r s)
  step-IsSorted r (consumes id nonce binding now) s = consume-IsSorted r id nonce binding now s
  step-IsSorted r (purges now) s = retain-IsSorted (λ t. not (is_expired_at t now)) r s

  -- Whatever a presentation answers, the transaction is not pending after it.
  presented-decided :
      (t : AuthenticationTransaction) (nonce binding : Text) (now : Instant)
      → is_pending (Transaction.consume t nonce binding now).0.state ≡ false
  unfolding Transaction.consume is_pending
  presented-decided t nonce binding now = elim (Result-cases (sha256 nonce)) [
    | inl (d, p) ↦ ground arith
    | inr (e, p) ↦ ground arith
  ]

  presented-Decided :
      (r : TransactionStore) (id nonce binding : Text) (now : Instant)
      → Decided id (consume r id nonce binding now).0
  unfolding Decided consume
  presented-Decided r id nonce binding now t h = elim (Option-cases (lookup id r)) [
    | inl p ↦ absurd (ground arith)
    | inr (x, p) ↦ ground (
      arith,
      consume-state r id nonce binding now p,
      lookup-insert id id (Transaction.consume x nonce binding now).0 r,
      eq_refl id,
      presented-decided x nonce binding now,
    )
  ]

  consume-Decided :
      (r : TransactionStore) (id key nonce binding : Text) (now : Instant)
      → Decided key r
      → Decided key (consume r id nonce binding now).0
  unfolding Decided consume
  consume-Decided r id key nonce binding now decided t h = elim (Option-cases (lookup id r)) [
    | inl p ↦ decided t (ground arith)
    | inr (x, p) ↦ ground (
      arith,
      consume-state r id nonce binding now p,
      lookup-insert id key (Transaction.consume x nonce binding now).0 r,
      presented-decided x nonce binding now,
      decided t,
    )
  ]

  step-Decided :
      (key : Text) (r : TransactionStore) (c : Call)
      → spares key c ≡ true
      → IsSorted r
      → Decided key r
      → Decided key (step r c)
  unfolding Decided step spares begin purge_expired
  step-Decided key r (begins x) s sorted decided t h =
      decided t (ground (arith, lookup-insert x.id key x r))
  step-Decided key r (consumes id nonce binding now) s sorted decided t h =
      consume-Decided r id key nonce binding now decided t h
  step-Decided key r (purges now) s sorted decided t h =
      decided t (ground (arith, lookup-retain (λ x. not (is_expired_at x now)) key r sorted))

  run-Decided :
      (key : Text) (r : TransactionStore) (calls : List Call)
      → all_of (spares key) calls ≡ true
      → IsSorted r
      → Decided key r
      → Decided key (run r calls)
  unfolding run all_of
  run-Decided key r [] s sorted decided = decided
  run-Decided key r (c ∷ calls) s sorted decided =
      run-Decided key (step r c) calls (ground arith) (step-IsSorted r c sorted)
        (step-Decided key r c (ground arith) sorted decided)

  Decided-refused :
      (r : TransactionStore) (id nonce binding : Text) (now : Instant)
      → Decided id r
      → succeeded (consume r id nonce binding now).1 ≡ false
  unfolding Decided consume Transaction.consume
  Decided-refused r id nonce binding now decided = elim (Option-cases (lookup id r)) [
    | inl p ↦ ground arith
    | inr (t, p) ↦ ground (arith, decided t p)
  ]

  -- A transaction is decided by the first answer that is presented to it, right or wrong: no later
  -- presentation of the same identifier succeeds, whatever calls of the store are between, as long as
  -- none of them begins another transaction of that identifier.
  pub consume-single :
      (r : TransactionStore) (id nonce binding nonce' binding' : Text) (now later : Instant)
      (calls : List Call)
      → IsSorted r
      → all_of (spares id) calls ≡ true
      → succeeded
          (consume (run (consume r id nonce binding now).0 calls) id nonce' binding' later).1
        ≡ false
  consume-single r id nonce binding nonce' binding' now later calls sorted s =
      Decided-refused (run (consume r id nonce binding now).0 calls) id nonce' binding' later (
        run-Decided id (consume r id nonce binding now).0 calls s
          (consume-IsSorted r id nonce binding now sorted)
          (presented-Decided r id nonce binding now))

  presented_accepts :
      (t : AuthenticationTransaction) (nonce binding : Text) (now : Instant)
      → is_pending t.state ≡ true
      → (succeeded (Transaction.consume t nonce binding now).1 ≡ true)
        ↔ ((now < t.expires_at) × (t.binding ≡ binding) × (sha256 nonce ≡ ok t.nonce_digest))
  unfolding Transaction.consume is_expired_at
  presented_accepts t nonce binding now h = elim (Result-cases (sha256 nonce)) [
    | inl (d, p) ↦ (
      λ e. (
        ground arith,
        ground (arith, constant_time_equals_iff t.binding binding),
        ground (arith, constant_time_equals_iff t.nonce_digest d),
      ),
      λ e. ground (
        arith,
        constant_time_equals_iff t.nonce_digest d,
        constant_time_equals_iff t.binding binding,
      ),
    )
    | inr (e, p) ↦ (λ e'. absurd (ground arith), λ e'. absurd (ground arith))
  ]

  succeeded-consume :
      (r : TransactionStore) (id nonce binding : Text) (now : Instant)
      {t : AuthenticationTransaction}
      → lookup id r ≡ some t
      → succeeded (consume r id nonce binding now).1
        ≡ succeeded (Transaction.consume t nonce binding now).1
  unfolding consume
  succeeded-consume r id nonce binding now {t} h =
      elim (Result-cases (Transaction.consume t nonce binding now).1) [
        | inl (d, p) ↦ ground arith
        | inr (e, p) ↦ ground arith
      ]

  create_sound :
      (id provider : Text) (model : InteractionModel) (nonce binding correlation : Text)
      (created_at : Instant) (lifetime : Duration) {t : AuthenticationTransaction}
      → create id provider model nonce binding correlation created_at lifetime ≡ ok t
      → (t.id ≡ id)
        × (is_pending t.state ≡ true)
        × (t.binding ≡ binding)
        × (t.expires_at ≡ created_at + lifetime)
        × (sha256 nonce ≡ ok t.nonce_digest)
  unfolding create is_pending
  create_sound id provider model nonce binding correlation created_at lifetime {t} h =
      elim (Result-cases (sha256 nonce)) [
        | inl (d, p) ↦ ground arith
        | inr (e, p) ↦ absurd (ground arith)
      ]

  -- A transaction that was created with a nonce and a binding and begun accepts an answer exactly
  -- when it comes before the deadline, from the same binding, with a nonce of the same digest.
  pub consume-begin :
      (r : TransactionStore) (id provider : Text) (model : InteractionModel)
      (nonce binding correlation nonce' binding' : Text) (created_at now : Instant)
      (lifetime : Duration) {t : AuthenticationTransaction}
      → create id provider model nonce binding correlation created_at lifetime ≡ ok t
      → (begin r t).1 ≡ ok tt
      → (succeeded (consume (begin r t).0 id nonce' binding' now).1 ≡ true) ↔ (
          (now < created_at + lifetime)
          × (binding ≡ binding')
          × ((d : Text) × (sha256 nonce ≡ ok d) × (sha256 nonce' ≡ ok d)))
  unfolding begin
  consume-begin r id provider model nonce binding correlation nonce' binding' created_at now
        lifetime {t} h begun =
      let sound = create_sound id provider model nonce binding correlation created_at lifetime h in
      let stored : lookup id (begin r t).0 ≡ some t =
        ground (arith, sound, lookup-insert t.id id t r, eq_refl id) in
      let same = succeeded-consume (begin r t).0 id nonce' binding' now stored in
      let accepts = presented_accepts t nonce' binding' now sound.1 in
      (
        λ e. (
          ground (arith, sound, same, accepts),
          ground (arith, sound, same, accepts),
          (t.nonce_digest, sound.4, ground (arith, same, accepts)),
        ),
        λ (before, agent, (d, p, q)). ground (arith, same, sound, accepts),
      )
