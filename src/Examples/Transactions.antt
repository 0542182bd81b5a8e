-- ===== src/Examples/Transactions.antt =====
-- Runs of the sign-ins that are under way with a provider.
use openproof.Base.{◌+◌, ◌<◌, ◌↔◌, all_of, ◌≡◌, refl, true, false, [], ◌∷◌, Text, text_key, bytes}
use openproof.Foundation.{ok, succeeded}
use openproof.Security.{sha256}
use openproof.Identity.Transaction.{
  AuthenticationTransaction, InteractionModel, TransactionState, create,
}
use openproof.Identity.Transaction.Store.{TransactionStore, begin, consume}
use openproof.Identity.Transaction.Once.{begins, purges, run, spares, consume-single, consume-begin}
use openproof.Examples.{example_crypto, fill}

abbrev waiting : AuthenticationTransaction
waiting = record {
  id = bytes "tx1";
  provider = bytes "password";
  interaction_model = InteractionModel.redirect;
  nonce_digest = fill 32 (bytes "nonce");
  binding = fill 32 (bytes "agent");
  correlation = bytes "c1";
  state = TransactionState.pending;
  created_at = 1000;
  expires_at = 1600;
  metadata = [];
}

abbrev transactions : TransactionStore
transactions = (bytes "tx1", waiting) ∷ []

-- A wrong nonce, and then the right one.
consume-single_example :
    succeeded
      (consume
        (run
          (consume transactions (bytes "tx1") (bytes "guess") (fill 32 (bytes "agent")) 1100).0
          (begins (record waiting { id = bytes "tx2" }) ∷ purges 1200 ∷ []))
        (bytes "tx1")
        (bytes "nonce")
        (fill 32 (bytes "agent"))
        1300).1
    ≡ false
unfolding all_of spares
consume-single_example =
    consume-single transactions (bytes "tx1") (bytes "guess") (fill 32 (bytes "agent"))
      (bytes "nonce") (fill 32 (bytes "agent")) 1100 1300
      (begins (record waiting { id = bytes "tx2" }) ∷ purges 1200 ∷ []) (tt, tt) refl

consume-begin_example :
    (succeeded
        (consume
          (begin [] waiting).0
          (bytes "tx1")
          (bytes "nonce")
          (fill 32 (bytes "agent"))
          1300).1
      ≡ true)
    ↔ ((1300 < 1000 + 600)
        × (fill 32 (bytes "agent") ≡ fill 32 (bytes "agent"))
        × ((d : Text) × (sha256 (bytes "nonce") ≡ ok d) × (sha256 (bytes "nonce") ≡ ok d)))
unfolding create sha256 begin
consume-begin_example =
    consume-begin [] (bytes "tx1") (bytes "password") InteractionModel.redirect (bytes "nonce")
      (fill 32 (bytes "agent")) (bytes "c1") (bytes "nonce") (fill 32 (bytes "agent")) 1000 1300 600
      {t = waiting} refl refl
