-- ===== src/Token/Grant.antt =====
-- src/token/service.cpp: the key and the policy of the token service, the grants that it makes, and
-- the records that it stores for them.
use openproof.Base.{
  ℕ, Bool, true, false, ◌||◌, ◌&&◌, Option, none, some, List, [], ◌∷◌, Text, text_key, ◌==◌,
  if◌then◌else◌, ltb, leb, length,
}
use openproof.Foundation.{Result, ok, fail, Instant, Duration, invalid_argument}
use openproof.Application.Repository.{ApplicationRepository}
use openproof.Client.Repository.{ClientRepository}
use openproof.Token.Model.{
  SenderConstraint, SenderConstraintKind, TokenContext, AccessTokenRecord, RefreshTokenRecord,
  AccessTokenState, RefreshTokenState,
}

unfoldable pub create_key : Text → Result Text
create_key secret = if ltb (length secret) 32 then fail invalid_argument else ok secret

pub record TokenPolicy : Type 0 where
  pub access_lifetime : Duration
  pub refresh_lifetime : Duration

-- One hour and ninety days.
unfoldable pub create_policy : Duration → Duration → Result TokenPolicy
create_policy access_lifetime refresh_lifetime =
    if leb access_lifetime 0
      || leb refresh_lifetime access_lifetime
      || ltb 3600000 access_lifetime
      || ltb 7776000000 refresh_lifetime
    then fail invalid_argument
    else ok (record { access_lifetime = access_lifetime; refresh_lifetime = refresh_lifetime })

-- The client manager that the service reads, its key and its policy.
pub record TokenService : Type 0 where
  pub applications : ApplicationRepository
  pub clients : ClientRepository
  pub key : Text
  pub policy : TokenPolicy

pub record TokenGrant : Type 0 where
  pub access_token : Text
  pub refresh_token : Text
  pub expires_in : Duration
  pub context : TokenContext

pub record MachineTokenGrant : Type 0 where
  pub access_token : Text
  pub expires_in : Duration
  pub context : TokenContext

same_kind : SenderConstraintKind → SenderConstraintKind → Bool
same_kind SenderConstraintKind.dpop SenderConstraintKind.dpop = true
same_kind SenderConstraintKind.dpop SenderConstraintKind.mtls = false
same_kind SenderConstraintKind.mtls SenderConstraintKind.dpop = false
same_kind SenderConstraintKind.mtls SenderConstraintKind.mtls = true

unfoldable pub same_constraint : Option SenderConstraint → Option SenderConstraint → Bool
unfolding same_kind
same_constraint none none = true
same_constraint none (some presented) = false
same_constraint (some expected) none = false
same_constraint (some expected) (some presented) =
    same_kind expected.kind presented.kind && (expected.value == presented.value)

unfoldable pub optional_list : Option Text → List Text
optional_list none = []
optional_list (some t) = t ∷ []

-- The records of a grant, as their constructors default them.
unfoldable pub access_record : Text → Text → TokenContext → Instant → Instant → AccessTokenRecord
access_record digest family context now expires_at = record {
  digest = digest;
  family = family;
  context = context;
  issued_at = now;
  expires_at = expires_at;
  state = AccessTokenState.active;
  revoked_at = none;
}

unfoldable pub refresh_record :
    Text → Text → ℕ → TokenContext → Instant → Instant → RefreshTokenRecord
refresh_record digest family sequence context now expires_at = record {
  digest = digest;
  family = family;
  sequence = sequence;
  context = context;
  issued_at = now;
  expires_at = expires_at;
  state = RefreshTokenState.active;
  changed_at = none;
}
