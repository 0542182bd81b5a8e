-- ===== src/Organization/Repository.antt =====
-- src/organization/repository.cpp: organizations by identifier, and memberships by the pair of
-- organization and identity.
use openproof.Base.{
  ℕ, ◌+◌, length, List, [], ◌∷◌, Option, none, some, Text, text_key, pair_key, ◌==◌, Map, lookup,
  contains_key, insert, if◌then◌else◌,
}
use openproof.Foundation.{Result, ok, fail, Status, already_exists, not_found}
use openproof.Organization.Model.{Organization, OrganizationStatus, change_status}
use openproof.Organization.Membership.{Membership}

abbrev pub OrganizationRepository : Type 0
OrganizationRepository = Map Text Organization

unfoldable pub add : OrganizationRepository → Organization → OrganizationRepository × Status
add r o = if contains_key o.id r then (r, fail already_exists) else (insert o.id o r, ok tt)

unfoldable pub find_by_id : OrganizationRepository → Text → Result (Option Organization)
find_by_id r id = ok (lookup id r)

written : OrganizationRepository → Text → Organization × Status → OrganizationRepository × Status
written r id (o, status) = (insert id o r, status)

change_found :
    OrganizationRepository
    → Text
    → OrganizationStatus
    → Option Organization
    → OrganizationRepository × Status
change_found r id status none = (r, fail not_found)
change_found r id status (some o) = written r id (change_status o status)

unfoldable pub change_status_of :
    OrganizationRepository → Text → OrganizationStatus → OrganizationRepository × Status
unfolding written change_found
change_status_of r id status = change_found r id status (lookup id r)

abbrev pub MembershipRepository : Type 0
MembershipRepository = Map (Text × Text) Membership

unfoldable pub add_membership : MembershipRepository → Membership → MembershipRepository × Status
add_membership r m =
    if contains_key (m.organization, m.identity) r
    then (r, fail already_exists)
    else (insert (m.organization, m.identity) m r, ok tt)

unfoldable pub find_membership : MembershipRepository → Text → Text → Result (Option Membership)
find_membership r organization identity = ok (lookup (organization, identity) r)

unfoldable pub save : MembershipRepository → Membership → MembershipRepository × Status
save r m =
    if contains_key (m.organization, m.identity) r
    then (insert (m.organization, m.identity) m r, ok tt)
    else (r, fail not_found)

unfoldable pub members_of : MembershipRepository → Text → List Text
members_of [] organization = []
members_of (((o, i), m) ∷ r) organization =
    let rest = members_of r organization in if o == organization then i ∷ rest else rest

unfoldable pub organizations_of : MembershipRepository → Text → List Text
organizations_of [] identity = []
organizations_of (((o, i), m) ∷ r) identity =
    let rest = organizations_of r identity in if i == identity then o ∷ rest else rest

unfoldable pub count : OrganizationRepository → Result ℕ
count r = ok (length r)

unfoldable pub count_in : MembershipRepository → Text → ℕ
count_in [] organization = 0
count_in (((o, i), m) ∷ r) organization =
    let rest = count_in r organization in if o == organization then rest + 1 else rest

unfoldable pub size : MembershipRepository → ℕ
size r = length r
