-- ===== src/Examples/Permissions.antt =====
-- Runs of the memberships and of the authorization.
use openproof.Base.{
  false, contains, sort_by, insert_by, has_adjacent, find_by, all_of, ◌≡◌, refl, inl, some, List,
  [], ◌∷◌, Text, text_key, pair_key, bytes, lookup,
}
use openproof.Identity.Assurance.{ial1, ial2, meets_assurance}
use openproof.Identity.Subject.{SubjectKind, IdentityStatus, can_authenticate}
use openproof.Identity.Repository.{IdentityRepository}
use openproof.Identity.Repository as Identities
use openproof.Organization.Model.{OrganizationStatus, is_usable}
use openproof.Organization.Membership.{
  Membership, MembershipState, permits_access, has_role, invite, remove, accept, suspend, reinstate,
  grant_role, revoke_role,
}
use openproof.Organization.Membership.Lifecycle.{
  Change, accepts, reinstates, grants, step, run, IsSound, remove-final,
}
use openproof.Organization.Repository.{
  OrganizationRepository, MembershipRepository, find_membership,
}
use openproof.Organization.Repository as Organizations
use openproof.Policy.Request.{AuthenticationContext, AuthorizationRequest, create_resolved}
use openproof.Policy.Request as Request
use openproof.Policy.Engine.{
  RoleMatchMode, RolePolicyRule, RolePolicyEngine, create, decide, evaluate, evaluate_protected,
  is_permitted, holds,
}
use openproof.Policy.Decisions.{evaluate-create}
use openproof.Policy.Access.{IsAllowed, evaluate_protected-permits}
use openproof.Examples.{strong}

abbrev changes : List Change
changes = accepts ∷ grants (bytes "writer") ∷ grants (bytes "admin") ∷ []

abbrev invitation : Membership
invitation = record {
  organization = bytes "org";
  identity = bytes "ada";
  state = MembershipState.invited;
  invited_at = 1000;
  roles = [];
}

abbrev left : Membership
left = (remove (run invitation changes)).0

remove-final_example :
    IsSound (run invitation changes)
    × ((run left (reinstates ∷ grants (bytes "owner") ∷ [])).state ≡ MembershipState.removed)
    × ((run left (reinstates ∷ grants (bytes "owner") ∷ [])).roles ≡ [])
    × (run left (reinstates ∷ grants (bytes "owner") ∷ []) ≡ left)
    × (has_role (run left (reinstates ∷ grants (bytes "owner") ∷ [])) (bytes "owner") ≡ false)
    × (permits_access (run left (reinstates ∷ grants (bytes "owner") ∷ [])).state ≡ false)
unfolding invite remove run step accept suspend reinstate grant_role revoke_role contains sort_by
    insert_by
remove-final_example =
    remove-final (bytes "org") (bytes "ada") 1000 changes (reinstates ∷ grants (bytes "owner") ∷ [])
      (bytes "owner") refl refl

abbrev organizations : OrganizationRepository
organizations =
    (
      bytes "org",
      record {
        id = bytes "org";
        display_name = bytes "Org";
        status = OrganizationStatus.active;
        created_at = 10;
      },
    )
    ∷ []

abbrev identities : IdentityRepository
identities =
    (
      bytes "ada",
      record {
        organization = bytes "org";
        identity = record {
          id = bytes "ada";
          kind = SubjectKind.human;
          status = IdentityStatus.active;
          created_at = 20;
        };
      },
    )
    ∷ []

abbrev membership : Membership
membership = record {
  organization = bytes "org";
  identity = bytes "ada";
  state = MembershipState.active;
  invited_at = 1000;
  roles = bytes "admin" ∷ bytes "writer" ∷ [];
}

abbrev memberships : MembershipRepository
memberships = ((bytes "org", bytes "ada"), membership) ∷ []

abbrev authentication : AuthenticationContext
authentication = record {
  provider_id = bytes "passkey";
  claimed_assurance = ial2;
  strength = strong;
  authenticated_at = 2000;
}

abbrev request : AuthorizationRequest
request = record {
  subject = bytes "ada";
  organization = bytes "org";
  authentication = authentication;
  roles = bytes "admin" ∷ bytes "writer" ∷ [];
  action = bytes "write";
  resource = bytes "page";
}

abbrev rule : Text → RolePolicyRule
rule action = record {
  action = action;
  resource = bytes "page";
  required_roles = bytes "writer" ∷ [];
  role_match = RoleMatchMode.all;
  minimum_assurance = ial1;
}

abbrev rules : List RolePolicyRule
rules = rule (bytes "write") ∷ rule (bytes "read") ∷ []

abbrev engine : RolePolicyEngine
engine = rule (bytes "read") ∷ rule (bytes "write") ∷ []

evaluate-create_example : evaluate engine request ≡ decide request (some (rule (bytes "write")))
unfolding create sort_by insert_by has_adjacent
evaluate-create_example =
    evaluate-create rules engine (rule (bytes "write")) request refl (inl refl) refl refl

evaluate_protected-permits_example :
    (m : Membership) × (u : RolePolicyRule) × (lookup (bytes "org", bytes "ada") memberships
      ≡ some m)
    × IsAllowed rules request m u
unfolding create_resolved Organizations.find_by_id Identities.find_by_id find_membership is_usable
    can_authenticate permits_access create sort_by insert_by has_adjacent evaluate_protected
    evaluate decide find_by is_permitted holds all_of meets_assurance Request.has_role contains
evaluate_protected-permits_example =
    evaluate_protected-permits (bytes "ada") authentication (bytes "org") organizations identities
      memberships (bytes "write") (bytes "page") request rules engine refl refl refl
