-- ===== src/Identity/Directory.antt =====
-- src/identity/core/link.cpp: which canonical identity owns which external identity, in memory.
pub mod Ownership
use openproof.Base.{
  ℕ, ◌+◌, Bool, true, false, not, ◌||◌, ◌&&◌, Option, none, some, List, [], ◌∷◌, Text, text_key,
  pair_key, bytes, ◌==◌, ◌!=◌, if◌then◌else◌, Map, lookup, contains_key, insert, erase, length, leb,
  contains, is_some,
}
use openproof.Foundation.{
  Result, ok, fail, Status, failed_precondition, conflict, not_found, permission_denied,
}
use openproof.Identity.Link.{
  ExternalIdentityRef, ExternalKey, key_of, IdentityLink, LinkState, linked, link_requested,
  verification_required, verified, rejected, expired, revoked,
}

-- An owner, beside the reference that is the key of its entry.
pub record Association : Type 0 where
  pub external : ExternalIdentityRef
  pub owner : Text

pub record Directory : Type 0 where
  pub owners : Map ExternalKey Association
  pub presentations : Map ExternalKey ExternalIdentityRef

unfoldable pub empty : Directory
empty = record { owners = []; presentations = [] }

is_linked : LinkState → Bool
is_linked linked = true
is_linked _ = false

attach_claimed : Directory → IdentityLink → Option Association → Directory × Status
attach_claimed d l (some a) = if a.owner == l.owner then (d, ok tt) else (d, fail conflict)
attach_claimed d l none = (
  record {
    owners =
        insert (key_of l.external) (record { external = l.external; owner = l.owner }) d.owners;
    presentations = insert (key_of l.external) l.external d.presentations;
  },
  ok tt,
)

-- An external identity that has another owner is refused, never transferred.
unfoldable pub attach : Directory → IdentityLink → Directory × Status
unfolding is_linked attach_claimed
attach d l =
    if not (is_linked l.state)
    then (d, fail failed_precondition)
    else attach_claimed d l (lookup (key_of l.external) d.owners)

abbrev pub owner_in : Option Association → Option Text
owner_in none = none
owner_in (some a) = some a.owner

unfoldable pub owner_of : Directory → ExternalKey → Result (Option Text)
owner_of d e = ok (owner_in (lookup e d.owners))

removed : Directory → ExternalKey → Directory
removed d e = record { owners = erase e d.owners; presentations = erase e d.presentations }

detach_owned : Directory → ExternalKey → Text → Option Association → Directory × Status
detach_owned d e expected_owner none = (d, fail not_found)
detach_owned d e expected_owner (some a) =
    if a.owner != expected_owner then (d, fail permission_denied) else (removed d e, ok tt)

unfoldable pub detach : Directory → ExternalKey → Text → Directory × Status
unfolding removed detach_owned
detach d e expected_owner = detach_owned d e expected_owner (lookup e d.owners)

-- The entries of an owner at the providers that authenticate.
unfoldable pub count_methods : Text → List Text → Map ExternalKey Association → ℕ
count_methods owner providers [] = 0
count_methods owner providers ((e, a) ∷ m) =
    let rest = count_methods owner providers m in
    if (a.owner == owner) && contains e.0 providers then rest + 1 else rest

detach_counted :
    Directory → ExternalKey → Text → List Text → Option Association → Directory × Status
detach_counted d e expected_owner providers none = (d, fail not_found)
detach_counted d e expected_owner providers (some a) =
    if a.owner != expected_owner
    then (d, fail permission_denied)
    else if leb (count_methods expected_owner providers d.owners) 1
    then (d, fail failed_precondition)
    else (removed d e, ok tt)

unfoldable pub detach_if_another_authentication_method :
    Directory → ExternalKey → Text → List Text → Directory × Status
unfolding removed detach_counted
detach_if_another_authentication_method d e expected_owner providers =
    detach_counted d e expected_owner providers (lookup e d.owners)

reassign_owned : Directory → ExternalKey → Text → Text → Option Association → Directory × Status
reassign_owned d e expected_current_owner new_owner none = (d, fail not_found)
reassign_owned d e expected_current_owner new_owner (some a) =
    if a.owner != expected_current_owner
    then (d, fail permission_denied)
    else (record d { owners = insert e (record a { owner = new_owner }) d.owners }, ok tt)

unfoldable pub reassign : Directory → ExternalKey → Text → Text → Directory × Status
unfolding reassign_owned
reassign d e expected_current_owner new_owner =
    reassign_owned d e expected_current_owner new_owner (lookup e d.owners)

or_else : Option Text → Option Text → Option Text
or_else none b = b
or_else (some a) b = some a

-- What is not given keeps its old value, but Telegram's picture is taken as given.
updated : ExternalIdentityRef → Option ExternalIdentityRef → ExternalIdentityRef
updated e none = e
updated e (some previous) = record e {
  display_name = or_else e.display_name previous.display_name;
  preferred_username = or_else e.preferred_username previous.preferred_username;
  picture_url =
      if e.provider_id == bytes "telegram"
      then e.picture_url
      else or_else e.picture_url previous.picture_url;
}

unfoldable pub update_presentation : Directory → ExternalIdentityRef → Directory × Status
unfolding or_else updated
update_presentation d e =
    if not (is_some (lookup (key_of e) d.owners)) then (d, fail not_found) else (
      record d {
        presentations =
            insert (key_of e) (updated e (lookup (key_of e) d.presentations)) d.presentations;
      },
      ok tt,
    )

unfoldable pub shown : ExternalIdentityRef → Option ExternalIdentityRef → ExternalIdentityRef
shown stored none = stored
shown stored (some presentation) = presentation

unfoldable pub identities_in :
    Text
    → Map ExternalKey ExternalIdentityRef
    → Map ExternalKey Association
    → List ExternalIdentityRef
unfolding shown
identities_in owner presentations [] = []
identities_in owner presentations ((e, a) ∷ m) =
    let rest = identities_in owner presentations m in
    if a.owner == owner then shown a.external (lookup e presentations) ∷ rest else rest

unfoldable pub external_identities_of : Directory → Text → Result (List ExternalIdentityRef)
external_identities_of d owner = ok (identities_in owner d.presentations d.owners)

unfoldable pub size : Directory → ℕ
size d = length d.owners
