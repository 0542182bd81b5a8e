-- ===== src/Identity/Transaction/Store.antt =====
-- src/identity/provider/transaction.cpp: the transactions by identifier. The lock makes each method
-- one step.
use openproof.Base.{
  ℕ, ◌+◌, not, Option, none, some, [], ◌∷◌, Text, text_key, Map, lookup, insert, retain,
  contains_key, length, if◌then◌else◌,
}
use openproof.Foundation.{Result, ok, fail, Status, Instant, already_exists, authentication_failed}
use openproof.Security.{Crypto}
use openproof.Identity.Transaction.{AuthenticationTransaction, is_expired_at}
use openproof.Identity.Transaction as Transaction

abbrev pub TransactionStore : Type 0
TransactionStore = Map Text AuthenticationTransaction

unfoldable pub begin : TransactionStore → AuthenticationTransaction → TransactionStore × Status
begin r t = if contains_key t.id r then (r, fail already_exists) else (insert t.id t r, ok tt)

unfoldable pub find : TransactionStore → Text → Result (Option AuthenticationTransaction)
find r id = ok (lookup id r)

count_expired : Instant → TransactionStore → ℕ
count_expired now [] = 0
count_expired now ((id, t) ∷ r) =
    let rest = count_expired now r in if is_expired_at t now then 1 + rest else rest

unfoldable pub purge_expired : TransactionStore → Instant → TransactionStore × ℕ
unfolding count_expired
purge_expired r now = (retain (λ t. not (is_expired_at t now)) r, count_expired now r)

unfoldable pub size : TransactionStore → ℕ
size r = length r

module _ ⦃crypto : Crypto⦄ where
  -- The transaction is changed in the map also when it refuses.
  consumed_entry :
      TransactionStore
      → Text
      → AuthenticationTransaction × Status
      → TransactionStore × Result AuthenticationTransaction
  consumed_entry r id (t, ok done) = (insert id t r, ok t)
  consumed_entry r id (t, fail e) = (insert id t r, fail e)

  consume_found :
      TransactionStore
      → (id nonce binding : Text) → Instant
      → Option AuthenticationTransaction
      → TransactionStore × Result AuthenticationTransaction
  unfolding consumed_entry
  consume_found r id nonce binding now none = (r, fail authentication_failed)
  consume_found r id nonce binding now (some t) =
      consumed_entry r id (Transaction.consume t nonce binding now)

  unfoldable pub consume :
      TransactionStore
      → (id nonce binding : Text) → Instant
      → TransactionStore × Result AuthenticationTransaction
  unfolding consume_found
  consume r id nonce binding now = consume_found r id nonce binding now (lookup id r)
