-- ===== src/Policy/Decisions.antt =====
-- src/policy/decision.cpp: what a decision rests on.
use openproof.Base.{
  ◌≡◌, refl, inl, inr, true, some, Option-cases, List, Text, text_key, pair_key, eq_iff, sort_by,
  Member, IsStrict, sort-IsInOrder, in_order-IsStrict, Member-sort, find_by-Member, lookup, arith,
}
use openproof.Foundation.{ok}
use openproof.Identity.Subject.{Identity, can_authenticate}
use openproof.Identity.Repository.{IdentityRepository, Owned, owned_by}
use openproof.Identity.Repository as Identities
use openproof.Organization.Model.{Organization, is_usable}
use openproof.Organization.Membership.{Membership, permits_access}
use openproof.Organization.Repository.{
  OrganizationRepository, MembershipRepository, find_membership,
}
use openproof.Organization.Repository as Organizations
use openproof.Policy.Request.{AuthenticationContext, AuthorizationRequest, create_resolved}
use openproof.Policy.Engine.{RolePolicyRule, RolePolicyEngine, rule_key, create, decide, evaluate}

-- What the repositories say of the subject of a request.
pub record IsResolved (organizations : OrganizationRepository) (identities : IdentityRepository)
    (memberships : MembershipRepository) (request : AuthorizationRequest) (o : Organization)
    (i : Identity) (m : Membership) : Type 0 where
  pub has_organization : lookup request.organization organizations ≡ some o
  pub organization_usable : is_usable o ≡ true
  pub has_identity : owned_by request.organization (lookup request.subject identities) ≡ some i
  pub identity_active : can_authenticate i ≡ true
  pub has_membership : lookup (request.organization, request.subject) memberships ≡ some m
  pub membership_active : permits_access m.state ≡ true
  pub has_roles : request.roles ≡ m.roles

-- A request is only made of an organization that is usable, an identity of that organization that
-- may authenticate, and a membership of the two that is in force; its roles are the membership's.
pub create_resolved_sound :
    (id : Text) (authentication : AuthenticationContext) (organization : Text)
    (organizations : OrganizationRepository) (identities : IdentityRepository)
    (memberships : MembershipRepository) (action resource : Text) {request : AuthorizationRequest}
    → create_resolved id authentication organization organizations identities memberships action
        resource
      ≡ ok request
    → (request.subject ≡ id)
      × (request.organization ≡ organization)
      × (request.authentication ≡ authentication)
      × ((o : Organization) × (i : Identity) × (m : Membership) × IsResolved organizations
            identities memberships request o i m)
unfolding create_resolved Organizations.find_by_id Identities.find_by_id find_membership
create_resolved_sound id authentication organization organizations identities memberships action
      resource {request} h =
    elim (Option-cases (lookup organization organizations)) [
      | inl p ↦ absurd (ground arith)
      | inr (o, p) ↦ elim (Option-cases (owned_by organization (lookup id identities))) [
        | inl q ↦ absurd (ground arith)
        | inr (i, q) ↦ elim (Option-cases (lookup (organization, id) memberships)) [
          | inl t ↦ absurd (ground arith)
          | inr (m, t) ↦
              let same_id : i.id ≡ id = ground (arith, eq_iff i.id id) in
              let named : request.subject ≡ id = ground (arith, eq_iff i.id id) in
              let within : request.organization ≡ organization = ground arith in
              (
                named,
                within,
                ground arith,
                (
                  o,
                  i,
                  m,
                  record {
                    has_organization = ground arith;
                    organization_usable = ground arith;
                    has_identity = ground arith;
                    identity_active = ground arith;
                    has_membership = ground arith;
                    membership_active = ground arith;
                    has_roles = ground arith;
                  },
                ),
              )
        ]
      ]
    ]

-- The rule of an operation decides it: of the rules that an engine was made of, the one with the
-- action and the resource of the request is the one that is applied, wherever it stood among them.
pub evaluate-create :
    (rules : List RolePolicyRule) (engine : RolePolicyEngine) (rule : RolePolicyRule)
    (request : AuthorizationRequest)
    → create rules ≡ ok engine
    → Member rule rules
    → rule.action ≡ request.action
    → rule.resource ≡ request.resource
    → evaluate engine request ≡ decide request (some rule)
unfolding create evaluate
evaluate-create rules engine rule request c m e f =
    let sorted : engine ≡ sort_by rule_key rules = ground arith in
    let strict : IsStrict rule_key (sort_by rule_key rules) =
      in_order-IsStrict rule_key (sort_by rule_key rules) (sort-IsInOrder rule_key rules)
        (ground arith) in
    rw
      (
        sorted,
        find_by-Member rule_key (request.action, request.resource) (sort_by rule_key rules) rule
            strict (Member-sort rule_key rule rules m) (ground arith),
      )
      refl
