-- ===== src/Identity/Merge/Transfer.antt =====
-- src/identity/core/merge.cpp: what a merge does when nothing comes between its calls.
use openproof.Base.{
  ◌≡◌, ◌↔◌, refl, Bool, true, false, Option, none, some, List, [], Text, text_key, pair_key, ◌==◌,
  eq_iff, arith, if◌then◌else◌, lookup, insert, lookup-insert,
}
use openproof.Foundation.{ok, Instant}
use openproof.Identity.Subject.{Identity, merged, change_status}
use openproof.Identity.Repository.{
  Owned, IdentityRepository, owned_by, find_by_id, change_status_of,
}
use openproof.Identity.Link.{ExternalIdentityRef, ExternalKey}
use openproof.Identity.Directory.{external_identities_of, identities_in}
use openproof.Identity.Directory.Ownership.{IsKeyed}
use openproof.Identity.Merge.Moves.{
  owner_at, names, Listed, move_all-moves, identities_in-Listed, names-identities_in,
}
use openproof.Identity.Merge.{
  World, MergeRecord, applied, is_verified, is_expired_at, check_subjects, on_merge, on_identities,
  is_terminal_identity_status, apply_merge, move_all, refuse_stale, mark_applied, transition_to,
}

-- The request is verified and in time, and both identities are found in its organization and are
-- neither deleted nor merged.
pub record IsMergeable (w : World) (now : Instant) (source target : Identity) : Type 0 where
  pub verified_request : is_verified w.merge.state ≡ true
  pub in_time : is_expired_at w.merge now ≡ false
  pub source_found : find_by_id w.identities w.merge.organization w.merge.source ≡ ok (some source)
  pub target_found : find_by_id w.identities w.merge.organization w.merge.target ≡ ok (some target)
  pub source_open : is_terminal_identity_status source.status ≡ false
  pub target_open : is_terminal_identity_status target.status ≡ false

abbrev pub is_owner : Text → Option Text → Bool
is_owner owner none = false
is_owner owner (some o) = o == owner

is_owner_iff : (owner : Text) (o : Option Text) → (is_owner owner o ≡ true) ↔ (o ≡ some owner)
is_owner_iff owner none = ground arith
is_owner_iff owner (some o) = ground (arith, eq_iff o owner)

retire :
    (r : IdentityRepository) (organization id : Text) (s : Identity) (found : Option Owned)
    → lookup id r ≡ found
    → owned_by organization found ≡ some s
    → is_terminal_identity_status s.status ≡ false
    → (change_status_of r organization id merged) ≡ (
      insert id (record { organization = organization; identity = record s { status = merged } }) r,
      ok tt,
    )
unfolding change_status_of change_status
retire r organization id s none p h o = ground arith
retire r organization id s (some x) p h o = ground (arith, eq_iff x.organization organization)

module _ (w : World) (now : Instant) (keyed : IsKeyed w.directory) where
  abbrev pub owned : List ExternalIdentityRef
  owned = identities_in w.merge.source w.directory.presentations w.directory.owners

  moves :
      (k : ExternalKey)
      → ((move_all w.merge.source w.merge.target owned w).1 ≡ ok owned)
        × ((move_all w.merge.source w.merge.target owned w).0.merge ≡ w.merge)
        × ((move_all w.merge.source w.merge.target owned w).0.identities ≡ w.identities)
        × (owner_at k (move_all w.merge.source w.merge.target owned w).0.directory
            ≡ (if names k owned then some w.merge.target else owner_at k w.directory))
  unfolding Listed
  moves k =
      move_all-moves w.merge.source w.merge.target w owned k
        (identities_in-Listed w.merge.source w.directory.presentations keyed.presentations_keyed
          w.directory.owners keyed.sorted keyed.owners_keyed).1

  -- What a merge leaves, with its record.
  abbrev pub merged_record : MergeRecord
  merged_record = record {
    organization = w.merge.organization;
    source = w.merge.source;
    target = w.merge.target;
    applied_at = now;
    moved_associations = owned;
  }

  apply_merge-applies :
      (source target : Identity)
      → IsMergeable w now source target
      → ((apply_merge now w).1 ≡ ok merged_record)
        × ((apply_merge now w).0.merge ≡ record w.merge { state = applied })
        × ((apply_merge now w).0.identities
            ≡ insert w.merge.source
                (record {
                  organization = w.merge.organization;
                  identity = record source { status = merged };
                })
                w.identities)
        × ((apply_merge now w).0.directory
            ≡ (move_all w.merge.source w.merge.target owned w).0.directory)
  unfolding apply_merge refuse_stale check_subjects on_merge on_identities find_by_id
      external_identities_of mark_applied transition_to
  apply_merge-applies source target v =
      let moved = moves ([], []) in
      let retired =
        retire w.identities w.merge.organization w.merge.source source _ refl
          (ground (arith, v.source_found)) v.source_open in
      (
        ground (arith, moved, retired),
        ground (arith, moved, retired),
        ground (arith, moved, retired),
        ground (arith, moved, retired),
      )

  -- In a directory whose entries stand under the keys of their references, and with no other call
  -- between those that it makes, a merge is applied as a whole if its request is verified and in time and both identities are found in its
  -- organization, neither deleted nor merged: the request is applied, every external identity of
  -- the source belongs to the target and no other changes its owner, the source is marked as
  -- merged and no other identity changes, and the record lists what the directory held of the
  -- source.
  pub apply_merge_complete :
      (source target : Identity) (k : ExternalKey) (i : Text)
      → IsMergeable w now source target
      → ((apply_merge now w).0.merge ≡ record w.merge { state = applied })
        × (owner_at k (apply_merge now w).0.directory ≡ (
            if is_owner w.merge.source (owner_at k w.directory)
            then some w.merge.target
            else owner_at k w.directory))
        × (lookup i (apply_merge now w).0.identities ≡ (
            if w.merge.source == i
            then some (record {
              organization = w.merge.organization;
              identity = record source { status = merged };
            })
            else lookup i w.identities))
        × ((apply_merge now w).1 ≡ ok merged_record)
        × (external_identities_of w.directory w.merge.source ≡ ok owned)
  unfolding external_identities_of
  apply_merge_complete source target k i v =
      let done = apply_merge-applies source target v in
      let named =
        names-identities_in w.merge.source w.directory.presentations keyed.presentations_keyed
          w.directory.owners k keyed.sorted keyed.owners_keyed in
      (
        done.1,
        ground
            (arith, done.3, moves k, named, is_owner_iff w.merge.source (owner_at k w.directory)),
        ground (
          arith,
          done.2,
          lookup-insert w.merge.source i
              (record {
                organization = w.merge.organization;
                identity = record source { status = merged };
              })
              w.identities,
        ),
        done.0,
        refl,
      )
