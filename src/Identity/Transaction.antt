-- ===== src/Identity/Transaction.antt =====
-- src/identity/provider/transaction.cpp: one sign-in that is under way with a provider.
pub mod Store
pub mod Once
use openproof.Base.{
  ◌+◌, Bool, true, false, not, ◌||◌, ◌&&◌, Text, text_key, [], Map, insert, leb, eqb, is_empty,
  if◌then◌else◌,
}
use openproof.Foundation.{
  Result, ok, fail, Status, ErrorCode, Instant, Duration, ◌>>=◌, ◌>>◌, refuse_if, invalid_argument,
  failed_precondition, authentication_failed,
}
use openproof.Security.{Crypto, sha256, constant_time_equals}

pub data InteractionModel : Type 0 where
  redirect challenge_response out_of_band assertion delegated : InteractionModel

pub data TransactionState : Type 0 where
  pending consumed failed expired : TransactionState

unfoldable pub is_pending : TransactionState → Bool
is_pending pending = true
is_pending consumed = false
is_pending failed = false
is_pending expired = false

pub record AuthenticationTransaction : Type 0 where
  pub id : Text
  pub provider : Text
  pub interaction_model : InteractionModel
  pub nonce_digest : Text
  pub binding : Text
  pub correlation : Text
  pub state : TransactionState
  pub created_at : Instant
  pub expires_at : Instant
  pub metadata : Map Text Text

-- A transaction as it was stored.
unfoldable pub restore : AuthenticationTransaction → Result AuthenticationTransaction
restore t =
    if is_empty t.id
      || is_empty t.provider
      || is_empty t.correlation
      || leb t.expires_at t.created_at
    then fail invalid_argument
    else ok t

unfoldable pub is_expired_at : AuthenticationTransaction → Instant → Bool
is_expired_at t now = leb t.expires_at now

unfoldable pub is_pending_at : AuthenticationTransaction → Instant → Bool
is_pending_at t now = is_pending t.state && not (is_expired_at t now)

unfoldable pub set_metadata :
    AuthenticationTransaction → (key value : Text) → AuthenticationTransaction
set_metadata t key value = record t { metadata = insert key value t.metadata }

unfoldable pub mark_failed : AuthenticationTransaction → AuthenticationTransaction
mark_failed t = if is_pending t.state then record t { state = failed } else t

unfoldable pub mark_expired : AuthenticationTransaction → AuthenticationTransaction
mark_expired t = if is_pending t.state then record t { state = expired } else t

module _ ⦃crypto : Crypto⦄ where
  unfoldable pub create :
      (id provider : Text) (model : InteractionModel) (nonce binding correlation : Text)
      (created_at : Instant) (lifetime : Duration)
      → Result AuthenticationTransaction
  create id provider model nonce binding correlation created_at lifetime =
      refuse_if (is_empty id || is_empty provider || is_empty nonce || eqb lifetime 0)
        invalid_argument
      >> (sha256 nonce >>= λ nonce_digest. ok (record {
        id = id;
        provider = provider;
        interaction_model = model;
        nonce_digest = nonce_digest;
        binding = binding;
        correlation = correlation;
        state = pending;
        created_at = created_at;
        expires_at = created_at + lifetime;
        metadata = [];
      }))

  -- The comparisons, once the presented nonce has a digest; both are made before either decides.
  compare_presented :
      AuthenticationTransaction
      → (binding : Text) → Result Text
      → AuthenticationTransaction × Status
  compare_presented t binding (fail e) = (record t { state = failed }, fail e)
  compare_presented t binding (ok digest) =
      if constant_time_equals t.nonce_digest digest && constant_time_equals t.binding binding
      then (record t { state = consumed }, ok tt)
      else (record t { state = failed }, fail authentication_failed)

  unfoldable pub consume :
      AuthenticationTransaction
      → (nonce binding : Text) → Instant
      → AuthenticationTransaction × Status
  unfolding compare_presented
  consume t nonce binding now =
      if not (is_pending t.state)
      then (t, fail failed_precondition)
      else if is_expired_at t now
      then (record t { state = expired }, fail failed_precondition)
      else compare_presented t binding (sha256 nonce)
