-- ===== src/Policy/Request.antt =====
-- src/policy/decision.cpp: `AuthorizationRequest`, built from the repositories and never from what
-- the caller says of its roles.
use openproof.Base.{
  Bool, not, ◌||◌, Option, none, some, List, Text, text_key, pair_key, ◌!=◌, is_empty, contains,
  if◌then◌else◌,
}
use openproof.Foundation.{
  Result, ok, fail, Status, Instant, refuse_if, ◌>>=◌, ◌>>◌, invalid_argument, permission_denied,
  failed_precondition,
}
use openproof.Identity.Assurance.{AssuranceLevel, AuthenticationStrength}
use openproof.Identity.Subject.{Identity, can_authenticate}
use openproof.Identity.Repository.{IdentityRepository}
use openproof.Identity.Repository as Identities
use openproof.Organization.Model.{Organization, is_usable}
use openproof.Organization.Membership.{Membership, permits_access}
use openproof.Organization.Repository.{
  OrganizationRepository, MembershipRepository, find_membership,
}
use openproof.Organization.Repository as Organizations
use openproof.Session.Model.{Session}
use openproof.Session.Service.{VerifiedAuthentication}

pub record AuthenticationContext : Type 0 where
  pub provider_id : Text
  pub claimed_assurance : AssuranceLevel
  pub strength : AuthenticationStrength
  pub authenticated_at : Instant

unfoldable pub context_of_session : Session → AuthenticationContext
context_of_session s = record {
  provider_id = s.provider;
  claimed_assurance = s.assurance;
  strength = s.strength;
  authenticated_at = s.authenticated_at;
}

unfoldable pub context_of_authentication : VerifiedAuthentication → AuthenticationContext
context_of_authentication v = record {
  provider_id = v.provider;
  claimed_assurance = v.claimed_assurance;
  strength = v.strength;
  authenticated_at = v.verified_at;
}

pub record AuthorizationRequest : Type 0 where
  pub subject : Text
  pub organization : Text
  pub authentication : AuthenticationContext
  pub roles : List Text
  pub action : Text
  pub resource : Text

usable_organization : Text → Option Organization → Status
usable_organization id none = fail permission_denied
usable_organization id (some o) = refuse_if (not (is_usable o) || (o.id != id)) permission_denied

known_identity : Text → Option Identity → Result Identity
known_identity id none = fail permission_denied
known_identity id (some i) =
    if i.id != id
    then fail permission_denied
    else if not (can_authenticate i)
    then fail failed_precondition
    else ok i

live_membership : Text → Identity → Option Membership → Result Membership
live_membership organization i none = fail permission_denied
live_membership organization i (some m) =
    if not (permits_access m.state)
    then fail permission_denied
    else if (m.identity != i.id) || (m.organization != organization)
    then fail permission_denied
    else ok m

unfoldable pub create_resolved :
    (authenticated_identity : Text) (authentication : AuthenticationContext) (organization : Text)
    (organizations : OrganizationRepository) (identities : IdentityRepository)
    (memberships : MembershipRepository) (action resource : Text)
    → Result AuthorizationRequest
unfolding usable_organization known_identity live_membership
create_resolved authenticated_identity authentication organization organizations identities
      memberships action resource =
    do
      refuse_if (is_empty action || is_empty resource) invalid_argument
      found_organization ← Organizations.find_by_id organizations organization
      usable_organization organization found_organization
      found_identity ← Identities.find_by_id identities organization authenticated_identity
      identity ← known_identity authenticated_identity found_identity
      found_membership ← find_membership memberships organization authenticated_identity
      membership ← live_membership organization identity found_membership
      ok (record {
        subject = identity.id;
        organization = organization;
        authentication = authentication;
        roles = membership.roles;
        action = action;
        resource = resource;
      })

-- The request of an authenticated session.
unfoldable pub create :
    (session : Session) (organization : Text) (organizations : OrganizationRepository)
    (identities : IdentityRepository) (memberships : MembershipRepository) (action resource : Text)
    → Result AuthorizationRequest
create session organization organizations identities memberships action resource =
    create_resolved session.identity (context_of_session session) organization organizations
      identities memberships action resource

-- The request of an authentication that has just been verified.
unfoldable pub create_verified :
    (verified : VerifiedAuthentication) (organization : Text)
    (organizations : OrganizationRepository) (identities : IdentityRepository)
    (memberships : MembershipRepository) (action resource : Text)
    → Result AuthorizationRequest
create_verified verified organization organizations identities memberships action resource =
    create_resolved verified.identity (context_of_authentication verified) organization
      organizations identities memberships action resource

unfoldable pub has_role : AuthorizationRequest → Text → Bool
has_role request role = contains role request.roles
