-- ===== src/Session/Delegated.antt =====
-- src/session/service.cpp: delegated OAuth access as the gateway accepts it.
use openproof.Base.{
  ◌-◌, ◌≤◌, ◌<◌, ◌∷◌, [], arith, ◌↔◌, ◌≡◌, Bool, false, ◌||◌, Option, none, List, Text, text_key,
  bytes, ltb, leb, is_empty, sort_unique, contains,
}
use openproof.Foundation.{Result, ok, Instant, ◌>>◌, refuse_if, authentication_failed}
use openproof.Identity.Assurance.{AssuranceLevel, AuthenticationStrength}
use openproof.Session.Model.{Session, active, restore}

-- The zero digest: 32 bytes.
abbrev pub zero_digest : Text
zero_digest =
    0 ∷ 0 ∷ 0 ∷ 0 ∷ 0 ∷ 0 ∷ 0 ∷ 0 ∷ 0 ∷ 0 ∷ 0 ∷ 0 ∷ 0 ∷ 0 ∷ 0 ∷ 0 ∷ 0 ∷ 0 ∷ 0 ∷ 0 ∷ 0 ∷ 0 ∷ 0 ∷ 0
    ∷ 0 ∷ 0 ∷ 0 ∷ 0 ∷ 0 ∷ 0 ∷ 0 ∷ 0 ∷ []

-- The session that the factory hands to `restore`.
unfoldable pub delegated_session :
    (identity provider : Text) (assurance : AssuranceLevel) (strength : AuthenticationStrength)
    (authenticated_at now expires_at : Instant)
    → Session
delegated_session identity provider assurance strength authenticated_at now expires_at = record {
  id = bytes "delegated-access";
  identity = identity;
  provider = provider;
  assurance = assurance;
  strength = strength;
  state = active;
  authenticated_at = authenticated_at;
  token_digest = zero_digest;
  issued_at = now;
  last_seen_at = now;
  absolute_expires_at = expires_at;
  idle_timeout = expires_at - now;
  revoked_at = none;
  user_agent = none;
  remote_address = none;
}

unfoldable pub from_delegated_access :
    (identity provider : Text) (assurance : AssuranceLevel) (strength : AuthenticationStrength)
    (authenticated_at now expires_at : Instant)
    → Result Session
unfolding delegated_session
from_delegated_access identity provider assurance strength authenticated_at now expires_at = do
  refuse_if
      (is_empty identity || is_empty provider || ltb now authenticated_at || leb expires_at now)
      authentication_failed
  restore (delegated_session identity provider assurance strength authenticated_at now expires_at)

pub data DelegatedSenderConstraintKind : Type 0 where
  dpop mtls : DelegatedSenderConstraintKind

pub record DelegatedSenderConstraint : Type 0 where
  pub kind : DelegatedSenderConstraintKind
  pub value : Text

pub record DelegatedAccess : Type 0 where
  pub authenticated : Session
  pub client_id : Text
  pub scopes : List Text
  pub audiences : List Text
  pub sender_constraint : Option DelegatedSenderConstraint

-- The constructor puts the scopes and the audiences in order and drops duplicates.
unfoldable pub delegated_access :
    Session → Text → List Text → List Text → Option DelegatedSenderConstraint → DelegatedAccess
delegated_access authenticated client_id scopes audiences sender_constraint = record {
  authenticated = authenticated;
  client_id = client_id;
  scopes = sort_unique scopes;
  audiences = sort_unique audiences;
  sender_constraint = sender_constraint;
}

unfoldable pub permits : DelegatedAccess → Text → Bool
permits access scope = is_empty scope || contains scope access.scopes

unfoldable pub permits_audience : DelegatedAccess → Text → Bool
permits_audience access audience = is_empty audience || contains audience access.audiences

-- Delegated access is refused only by the guard of the factory: where the subject and the provider
-- are named, the authentication is not in the future and the expiry is, it gives a session that every
-- check of `restore` accepts, and nowhere else.
pub from_delegated_access-accepts :
    (identity provider : Text) (assurance : AssuranceLevel) (strength : AuthenticationStrength)
    (authenticated_at now expires_at : Instant)
    → (from_delegated_access identity provider assurance strength authenticated_at now expires_at
        ≡ ok (
            delegated_session identity provider assurance strength authenticated_at now expires_at))
      ↔ ((is_empty identity ≡ false)
          × (is_empty provider ≡ false)
          × (authenticated_at ≤ now)
          × (now < expires_at))
unfolding from_delegated_access restore
from_delegated_access-accepts identity provider assurance strength authenticated_at now expires_at =
    (λ h. ground arith, λ h. ground arith)
