-- ===== src/Policy/Access.antt =====
-- src/policy/decision.cpp: who is let through, from the request to the decision.
use openproof.Base.{
  ◌≡◌, refl, ap, subst, inl, inr, true, some, Option-cases, List, [], ◌∷◌, Text, text_key, pair_key,
  all_of, any_of, find_by, Member, sort-Member, find_by_sound, lookup, arith,
}
use openproof.Foundation.{ok}
use openproof.Identity.Assurance.{meets_assurance}
use openproof.Identity.Repository.{IdentityRepository}
use openproof.Organization.Membership.{Membership, permits_access}
use openproof.Organization.Membership as Memberships
use openproof.Organization.Repository.{OrganizationRepository, MembershipRepository}
use openproof.Policy.Request.{
  AuthenticationContext, AuthorizationRequest, create_resolved, has_role,
}
use openproof.Policy.Engine.{
  is_permitted, RoleMatchMode, all, any, RolePolicyRule, RolePolicyEngine, rule_key, create, decide,
  evaluate, evaluate_protected, holds,
}
use openproof.Policy.Decisions.{create_resolved_sound}

-- What a rule asks of the roles, in terms of those that the membership itself grants.
abbrev pub Grants : RoleMatchMode → Membership → List Text → Type 0
Grants all m roles = all_of (λ role. Memberships.has_role m role) roles ≡ true
Grants any m roles = any_of (λ role. Memberships.has_role m role) roles ≡ true

all_of-holds :
    (request : AuthorizationRequest) (m : Membership) (roles : List Text)
    → request.roles ≡ m.roles
    → permits_access m.state ≡ true
    → all_of (λ role. has_role request role) roles ≡ true
    → Grants all m roles
unfolding all_of has_role Memberships.has_role
all_of-holds request m [] e p h = refl
all_of-holds request m (x ∷ xs) e p h = ground (arith, all_of-holds request m xs e p)

any_of-holds :
    (request : AuthorizationRequest) (m : Membership) (roles : List Text)
    → request.roles ≡ m.roles
    → permits_access m.state ≡ true
    → any_of (λ role. has_role request role) roles ≡ true
    → Grants any m roles
unfolding any_of has_role Memberships.has_role
any_of-holds request m [] e p h = h
any_of-holds request m (x ∷ xs) e p h = ground (arith, any_of-holds request m xs e p)

holds-Grants :
    (request : AuthorizationRequest) (m : Membership) (mode : RoleMatchMode) (roles : List Text)
    → request.roles ≡ m.roles
    → permits_access m.state ≡ true
    → holds request mode roles ≡ true
    → Grants mode m roles
unfolding holds
holds-Grants request m all roles e p h = all_of-holds request m roles e p h
holds-Grants request m any roles e p h = any_of-holds request m roles e p h

engine-Member :
    (rules : List RolePolicyRule) (engine : RolePolicyEngine) (rule : RolePolicyRule)
    → create rules ≡ ok engine
    → Member rule engine
    → Member rule rules
unfolding create
engine-Member rules engine rule c m =
    sort-Member rule_key rule rules (subst (λ e. Member rule e) (ground arith) m)

-- The rule that let a request through.
pub record IsAllowed (rules : List RolePolicyRule) (request : AuthorizationRequest) (m : Membership)
    (rule : RolePolicyRule) : Type 0 where
  pub is_given : Member rule rules
  pub same_action : rule.action ≡ request.action
  pub same_resource : rule.resource ≡ request.resource
  pub assured :
      meets_assurance request.authentication.claimed_assurance rule.minimum_assurance ≡ true
  pub grants : Grants rule.role_match m rule.required_roles

-- With an engine that was made of a list of rules, a request resolved from the repositories is let
-- through only by one of those rules, for the action and the resource of the request, whose level
-- of assurance the authentication meets, and for a member of the organization to whom that
-- membership, in force, grants the roles that the rule asks for: each of them, or one of them, as
-- the rule says.
pub evaluate_protected-permits :
    (id : Text) (authentication : AuthenticationContext) (organization : Text)
    (organizations : OrganizationRepository) (identities : IdentityRepository)
    (memberships : MembershipRepository) (action resource : Text) (request : AuthorizationRequest)
    (rules : List RolePolicyRule) (engine : RolePolicyEngine)
    → create_resolved id authentication organization organizations identities memberships action
        resource
      ≡ ok request
    → create rules ≡ ok engine
    → is_permitted (evaluate_protected (some engine) request) ≡ true
    → (m : Membership) × (rule : RolePolicyRule) × (lookup (organization, id) memberships ≡ some m)
      × IsAllowed rules request m rule
unfolding evaluate_protected evaluate decide is_permitted
evaluate_protected-permits id authentication organization organizations identities memberships
      action resource request rules engine h c p =
    let (subject_is, organization_is, same_context, (o, i, m, resolved)) =
      create_resolved_sound id authentication organization organizations identities memberships
        action resource h in
    elim (Option-cases (find_by rule_key (request.action, request.resource) engine)) [
      | inl q ↦ absurd (ground arith)
      | inr (rule, q) ↦
          let (member, key_is) =
            find_by_sound rule_key (request.action, request.resource) engine rule q in
          (
            m,
            rule,
            ground (arith, resolved.has_membership),
            record {
              is_given = engine-Member rules engine rule c member;
              same_action = ap (λ k. k.0) key_is;
              same_resource = ap (λ k. k.1) key_is;
              assured = ground arith;
              grants =
                  holds-Grants request m rule.role_match rule.required_roles resolved.has_roles
                    resolved.membership_active (ground arith);
            },
          )
    ]
