-- ===== src/Policy/Engine.antt =====
-- src/policy/decision.cpp: the role policy engine, and the evaluation of a protected operation.
use openproof.Base.{
  Bool, true, false, not, ◌||◌, Option, none, some, List, Text, text_key, pair_key, is_empty,
  all_of, any_of, length, ltb, eqb, sort_by, has_adjacent, find_by, if◌then◌else◌,
}
use openproof.Foundation.{Result, ok, fail, invalid_argument, already_exists}
use openproof.Identity.Assurance.{AssuranceLevel, rank, meets_assurance}
use openproof.Policy.Request.{AuthorizationRequest, has_role}

pub data DecisionKind : Type 0 where
  allow deny not_applicable indeterminate : DecisionKind

unfoldable pub is_permitted : DecisionKind → Bool
is_permitted allow = true
is_permitted deny = false
is_permitted not_applicable = false
is_permitted indeterminate = false

pub data RoleMatchMode : Type 0 where
  any all : RoleMatchMode

pub record RolePolicyRule : Type 0 where
  pub action : Text
  pub resource : Text
  pub required_roles : List Text
  pub role_match : RoleMatchMode
  pub minimum_assurance : AssuranceLevel

is_bad_role : Text → Bool
is_bad_role role =
    is_empty role || ltb 200 (length role) || any_of (λ byte. ltb byte 33 || eqb byte 127) role

unfoldable pub create_rule :
    Text → Text → List Text → RoleMatchMode → AssuranceLevel → Result RolePolicyRule
unfolding is_bad_role
create_rule action resource required_roles role_match minimum_assurance =
    if is_empty action
      || is_empty resource
      || is_empty required_roles
      || ltb 16 (length required_roles)
      || eqb (rank minimum_assurance) 0
      || any_of is_bad_role required_roles
    then fail invalid_argument
    else if has_adjacent (λ r. r) (sort_by (λ r. r) required_roles)
    then fail invalid_argument
    else ok (record {
      action = action;
      resource = resource;
      required_roles = sort_by (λ r. r) required_roles;
      role_match = role_match;
      minimum_assurance = minimum_assurance;
    })

-- The projection by which the rules are sorted and searched.
abbrev pub rule_key : RolePolicyRule → Text × Text
rule_key rule = (rule.action, rule.resource)

abbrev pub RolePolicyEngine : Type 0
RolePolicyEngine = List RolePolicyRule

unfoldable pub create : List RolePolicyRule → Result RolePolicyEngine
create rules =
    if is_empty rules || ltb 256 (length rules)
    then fail invalid_argument
    else if has_adjacent rule_key (sort_by rule_key rules)
    then fail already_exists
    else ok (sort_by rule_key rules)

unfoldable pub holds : AuthorizationRequest → RoleMatchMode → List Text → Bool
holds request all roles = all_of (λ role. has_role request role) roles
holds request any roles = any_of (λ role. has_role request role) roles

-- The decision by the rule of the operation.
unfoldable pub decide : AuthorizationRequest → Option RolePolicyRule → DecisionKind
unfolding holds
decide request none = not_applicable
decide request (some rule) =
    if not (meets_assurance request.authentication.claimed_assurance rule.minimum_assurance)
    then deny
    else if holds request rule.role_match rule.required_roles
    then allow
    else deny

unfoldable pub evaluate : RolePolicyEngine → AuthorizationRequest → DecisionKind
evaluate engine request =
    decide request (find_by rule_key (request.action, request.resource) engine)

unfoldable pub evaluate_protected : Option RolePolicyEngine → AuthorizationRequest → DecisionKind
evaluate_protected none request = indeterminate
evaluate_protected (some engine) request = evaluate engine request
