-- ===== src/Examples/Identities.antt =====
-- Runs of linking, of the directory and of a merge.
use openproof.Base.{
  Member, List, insert, contains, ◌≡◌, refl, true, none, some, [], ◌∷◌, Text, text_key, pair_key,
  bytes, lookup, ◌==◌, if◌then◌else◌,
}
use openproof.Foundation.{ok}
use openproof.Identity.Subject.{Identity, SubjectKind, IdentityStatus}
use openproof.Identity.Repository.{find_by_id}
use openproof.Identity.Link.{
  ExternalKey, ExternalIdentityRef, ExternalIdentityRef, IdentityLink, link_requested, linked,
  is_permitted_transition, transition_to, require_verification, mark_verified, complete,
}
use openproof.Identity.Link.Progress.{
  requires, verifies, completes, passes, requirement, verification, completion, run, step,
  run-linked,
}
use openproof.Identity.Directory.{
  Directory, empty, attach, detach_if_another_authentication_method, count_methods, owner_in,
  external_identities_of,
}
use openproof.Identity.Directory.Ownership.{
  IsKeyed, empty-IsKeyed, attach-IsKeyed, attach-run,
  detach_if_another_authentication_method-leaves_one,
}
use openproof.Identity.Merge.{World, IdentityMerge, MergeState, apply_merge}
use openproof.Identity.Merge.Moves.{owner_at}
use openproof.Identity.Merge.Transfer.{
  IsMergeable, is_owner, apply_merge_complete, merged_record, owned,
}

abbrev account : Text → ExternalIdentityRef
account subject = record {
  provider_id = bytes "google";
  subject = subject;
  display_name = none;
  preferred_username = none;
  picture_url = none;
}

abbrev link : Text → IdentityLink
link owner = record {
  owner = owner;
  external = account (bytes "1");
  state = link_requested;
  requested_at = 1000;
  expires_at = 2000;
}

run-linked_example :
    passes 2000
      (requirement ∷ verification ∷ completion ∷ [])
      (requires 1100 ∷ verifies 1200 ∷ completes 1300 ∷ [])
    ≡ true
unfolding run step require_verification mark_verified complete transition_to is_permitted_transition
run-linked_example =
    run-linked (link (bytes "ada")) (requires 1100 ∷ verifies 1200 ∷ completes 1300 ∷ []) refl refl

abbrev owned_by_ada : Directory
owned_by_ada = (attach empty (record (link (bytes "ada")) { state = linked })).0

attach-run_example :
    (passes 2000
        (requirement ∷ verification ∷ completion ∷ [])
        (requires 1100 ∷ verifies 1200 ∷ completes 1300 ∷ [])
      ≡ true)
    × (owner_in (
          lookup
            (bytes "google", bytes "1")
            (attach empty (
              run
                (link (bytes "ada"))
                (requires 1100 ∷ verifies 1200 ∷ completes 1300 ∷ []))).0.owners)
        ≡ some (bytes "ada"))
unfolding run step require_verification mark_verified complete transition_to is_permitted_transition
    attach empty insert
attach-run_example =
    attach-run empty (link (bytes "ada")) (requires 1100 ∷ verifies 1200 ∷ completes 1300 ∷ []) refl
      refl

abbrev second : IdentityLink
second = record (link (bytes "ada")) { external = account (bytes "2"); state = linked }

abbrev two_accounts : Directory
two_accounts = (attach owned_by_ada second).0

two_accounts-IsKeyed : IsKeyed two_accounts
two_accounts-IsKeyed =
    attach-IsKeyed owned_by_ada second
      (attach-IsKeyed empty (record (link (bytes "ada")) { state = linked }) empty-IsKeyed)

detach_if_another_authentication_method-leaves_one_example :
    (owner_in (lookup (bytes "google", bytes "1") two_accounts.owners) ≡ some (bytes "ada"))
    × (lookup
          (bytes "google", bytes "1")
          (detach_if_another_authentication_method two_accounts
            (bytes "google", bytes "1")
            (bytes "ada")
            (bytes "google" ∷ [])).0.owners
        ≡ none)
    × ((k : ExternalKey) × (owner_in (
            lookup k
              (detach_if_another_authentication_method two_accounts
                (bytes "google", bytes "1")
                (bytes "ada")
                (bytes "google" ∷ [])).0.owners)
          ≡ some (bytes "ada"))
        × Member k.0 (bytes "google" ∷ []))
unfolding attach empty insert detach_if_another_authentication_method count_methods contains
detach_if_another_authentication_method-leaves_one_example =
    detach_if_another_authentication_method-leaves_one two_accounts (bytes "google", bytes "1")
      (bytes "ada") (bytes "google" ∷ []) two_accounts-IsKeyed refl

abbrev merge : IdentityMerge
merge = record {
  organization = bytes "org";
  source = bytes "ada";
  target = bytes "eve";
  state = MergeState.requested;
  requested_at = 1000;
  expires_at = 2000;
}

abbrev person : Text → Identity
person id = record {
  id = id;
  kind = SubjectKind.human;
  status = IdentityStatus.active;
  created_at = 500;
}

abbrev world : World
world = record {
  merge = record merge { state = MergeState.verified };
  identities =
      (bytes "ada", record { organization = bytes "org"; identity = person (bytes "ada") })
      ∷ (bytes "eve", record { organization = bytes "org"; identity = person (bytes "eve") })
      ∷ [];
  directory = two_accounts;
}

world-IsMergeable : IsMergeable world 1500 (person (bytes "ada")) (person (bytes "eve"))
unfolding find_by_id
world-IsMergeable = record {
  verified_request = refl;
  in_time = refl;
  source_found = refl;
  target_found = refl;
  source_open = refl;
  target_open = refl;
}

apply_merge_complete_example :
    ((apply_merge 1500 world).0.merge ≡ record merge { state = MergeState.applied })
    × (owner_at (bytes "google", bytes "1") (apply_merge 1500 world).0.directory ≡ (
        if is_owner (bytes "ada") (owner_at (bytes "google", bytes "1") two_accounts)
        then some (bytes "eve")
        else owner_at (bytes "google", bytes "1") two_accounts))
    × (lookup (bytes "ada") (apply_merge 1500 world).0.identities ≡ (
        if bytes "ada" == bytes "ada"
        then some (record {
          organization = bytes "org";
          identity = record (person (bytes "ada")) { status = IdentityStatus.merged };
        })
        else lookup (bytes "ada") world.identities))
    × ((apply_merge 1500 world).1 ≡ ok (merged_record world 1500 two_accounts-IsKeyed))
    × (external_identities_of two_accounts (bytes "ada")
        ≡ ok (owned world 1500 two_accounts-IsKeyed))
apply_merge_complete_example =
    apply_merge_complete world 1500 two_accounts-IsKeyed (person (bytes "ada"))
      (person (bytes "eve")) (bytes "google", bytes "1") (bytes "ada") world-IsMergeable

abbrev listed : List ExternalIdentityRef
listed = account (bytes "1") ∷ account (bytes "9") ∷ account (bytes "2") ∷ []
