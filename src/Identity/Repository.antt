-- ===== src/Identity/Repository.antt =====
-- src/identity/core/repository.cpp: identities with the organization that owns them. A look-up from
-- another organization finds nothing.
use openproof.Base.{
  ℕ, ◌+◌, Bool, true, false, ◌&&◌, Option, none, some, List, [], ◌∷◌, Text, text_key, ◌==◌,
  if◌then◌else◌, Map, lookup, contains_key, insert,
}
use openproof.Foundation.{Result, ok, fail, Status, already_exists, not_found}
use openproof.Identity.Subject.{Identity, IdentityStatus, SubjectKind, change_status}

pub record Owned : Type 0 where
  pub organization : Text
  pub identity : Identity

abbrev pub IdentityRepository : Type 0
IdentityRepository = Map Text Owned

unfoldable pub add : IdentityRepository → Text → Identity → IdentityRepository × Status
add r organization identity =
    if contains_key identity.id r
    then (r, fail already_exists)
    else (insert identity.id (record { organization = organization; identity = identity }) r, ok tt)

abbrev pub owned_by : Text → Option Owned → Option Identity
owned_by organization none = none
owned_by organization (some o) = if o.organization == organization then some o.identity else none

unfoldable pub find_by_id : IdentityRepository → Text → Text → Result (Option Identity)
find_by_id r organization id = ok (owned_by organization (lookup id r))

written : IdentityRepository → Text → Owned → Identity × Status → IdentityRepository × Status
written r id o (identity, status) = (insert id (record o { identity = identity }) r, status)

change_found :
    IdentityRepository → Text → Text → IdentityStatus → Option Owned → IdentityRepository × Status
change_found r organization id status none = (r, fail not_found)
change_found r organization id status (some o) =
    if o.organization == organization
    then written r id o (change_status o.identity status)
    else (r, fail not_found)

unfoldable pub change_status_of :
    IdentityRepository → Text → Text → IdentityStatus → IdentityRepository × Status
unfolding written change_found
change_status_of r organization id status = change_found r organization id status (lookup id r)

same_kind : SubjectKind → SubjectKind → Bool
same_kind SubjectKind.human SubjectKind.human = true
same_kind SubjectKind.service SubjectKind.service = true
same_kind SubjectKind.workload SubjectKind.workload = true
same_kind SubjectKind.organization SubjectKind.organization = true
same_kind _ _ = false

unfoldable pub ids_of_kind : IdentityRepository → Text → SubjectKind → List Text
unfolding same_kind
ids_of_kind [] organization kind = []
ids_of_kind ((key, o) ∷ r) organization kind =
    let rest = ids_of_kind r organization kind in
    if (o.organization == organization) && same_kind o.identity.kind kind then key ∷ rest else rest

unfoldable pub count_in : IdentityRepository → Text → ℕ
count_in [] organization = 0
count_in ((key, o) ∷ r) organization =
    let rest = count_in r organization in if o.organization == organization then rest + 1 else rest
