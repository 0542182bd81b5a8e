-- ===== src/Identity/Merge.antt =====
-- src/identity/core/merge.cpp: a request to absorb one identity into another, as a state machine,
-- and its execution over the identity repository and the directory of external identities.
pub mod Progress
pub mod Moves
pub mod Transfer
use openproof.Base.{
  ◌+◌, Bool, true, false, not, ◌||◌, ◌&&◌, Option, none, some, List, [], ◌∷◌, Text, text_key, ◌==◌,
  leb, is_empty, if◌then◌else◌,
}
use openproof.Foundation.{
  Result, ok, fail, Status, Instant, Duration, refuse_if, invalid_argument, failed_precondition,
  not_found, ErrorCode,
}
use openproof.Foundation.Exec.{Exec, pure, raise, lift, ◌>>=◌, ◌>>◌}
use openproof.Identity.Subject.{Identity, IdentityStatus, deleted, merged}
use openproof.Identity.Repository.{IdentityRepository, find_by_id, change_status_of}
use openproof.Identity.Link.{ExternalIdentityRef, key_of}
use openproof.Identity.Directory.{Directory, external_identities_of, reassign}

pub data MergeState : Type 0 where
  requested verification_required verified applied rejected expired : MergeState

unfoldable pub is_terminal_merge_state : MergeState → Bool
is_terminal_merge_state requested = false
is_terminal_merge_state verification_required = false
is_terminal_merge_state verified = false
is_terminal_merge_state applied = true
is_terminal_merge_state rejected = true
is_terminal_merge_state expired = true

pub record IdentityMerge : Type 0 where
  pub organization : Text
  pub source : Text
  pub target : Text
  pub state : MergeState
  pub requested_at : Instant
  pub expires_at : Instant

unfoldable pub request : Text → Text → Text → Instant → Duration → Result IdentityMerge
request organization source target now valid_for =
    if is_empty organization
    then fail invalid_argument
    else if is_empty source || is_empty target
    then fail invalid_argument
    else if source == target
    then fail invalid_argument
    else if leb valid_for 0
    then fail invalid_argument
    else ok (record {
      organization = organization;
      source = source;
      target = target;
      state = requested;
      requested_at = now;
      expires_at = now + valid_for;
    })

abbrev pub is_requested : MergeState → Bool
is_requested requested = true
is_requested _ = false

abbrev pub is_required : MergeState → Bool
is_required verification_required = true
is_required _ = false

abbrev pub is_verified : MergeState → Bool
is_verified verified = true
is_verified _ = false

abbrev pub is_expired_at : IdentityMerge → Instant → Bool
is_expired_at m now = leb m.expires_at now

unfoldable pub transition_to : IdentityMerge → MergeState → Instant → Bool → IdentityMerge × Status
unfolding is_terminal_merge_state
transition_to m next now honour_expiry =
    if is_terminal_merge_state m.state
    then (m, fail failed_precondition)
    else if honour_expiry && is_expired_at m now
    then (record m { state = expired }, fail failed_precondition)
    else (record m { state = next }, ok tt)

unfoldable pub require_verification : IdentityMerge → Instant → IdentityMerge × Status
require_verification m now =
    if not (is_requested m.state)
    then (m, fail failed_precondition)
    else transition_to m verification_required now true

unfoldable pub mark_verified : IdentityMerge → Instant → IdentityMerge × Status
mark_verified m now =
    if not (is_required m.state)
    then (m, fail failed_precondition)
    else transition_to m verified now true

unfoldable pub mark_applied : IdentityMerge → Instant → IdentityMerge × Status
mark_applied m now =
    if not (is_verified m.state)
    then (m, fail failed_precondition)
    else transition_to m applied now true

unfoldable pub reject : IdentityMerge → Instant → IdentityMerge × Status
reject m now = transition_to m rejected now false

unfoldable pub expire : IdentityMerge → Instant → IdentityMerge × Status
expire m now = transition_to m expired now false

pub record MergeRecord : Type 0 where
  pub organization : Text
  pub source : Text
  pub target : Text
  pub applied_at : Instant
  pub moved_associations : List ExternalIdentityRef

-- What a merge reads and writes.
pub record World : Type 0 where
  pub merge : IdentityMerge
  pub identities : IdentityRepository
  pub directory : Directory

abbrev pub is_terminal_identity_status : IdentityStatus → Bool
is_terminal_identity_status deleted = true
is_terminal_identity_status merged = true
is_terminal_identity_status _ = false

-- The error of a pair of look-ups that is refused.
unfoldable pub check_subjects : Option Identity → Option Identity → Status
check_subjects none target = fail not_found
check_subjects (some s) none = fail not_found
check_subjects (some s) (some t) =
    refuse_if (is_terminal_identity_status s.status || is_terminal_identity_status t.status)
      failed_precondition

unfoldable pub on_merge : (IdentityMerge → IdentityMerge × Status) → Exec World (Unit {0})
on_merge f w = let (merge, status) = f w.merge in (record w { merge = merge }, status)

unfoldable pub on_identities :
    (IdentityRepository → IdentityRepository × Status) → Exec World (Unit {0})
on_identities f w =
    let (identities, status) = f w.identities in (record w { identities = identities }, status)

unfoldable pub on_directory : (Directory → Directory × Status) → Exec World (Unit {0})
on_directory f w =
    let (directory, status) = f w.directory in (record w { directory = directory }, status)

-- The loop over the source's associations; it stops at the first that cannot be moved.
unfoldable pub move_all :
    Text → Text → List ExternalIdentityRef → Exec World (List ExternalIdentityRef)
unfolding on_directory
move_all source target [] = pure []
move_all source target (e ∷ es) =
    on_directory (λ d. reassign d (key_of e) source target)
    >> (move_all source target es >>= λ moved. pure (e ∷ moved))

unfoldable pub refuse_stale : Instant → Exec World (Unit {0})
unfolding on_merge
refuse_stale now w =
    if not (is_verified w.merge.state)
    then (w, fail failed_precondition)
    else if is_expired_at w.merge now
    then (record w { merge = (expire w.merge now).0 }, fail failed_precondition)
    else (w, ok tt)

unfoldable pub apply_merge : Instant → Exec World MergeRecord
unfolding refuse_stale check_subjects on_merge on_identities on_directory
apply_merge now = do
  refuse_stale now
  w ← (λ v. (v, ok v))
  let m = w.merge
  source ← lift (find_by_id w.identities m.organization m.source)
  target ← lift (find_by_id w.identities m.organization m.target)
  lift (check_subjects source target)
  owned ← lift (external_identities_of w.directory m.source)
  moved ← move_all m.source m.target owned
  on_identities (λ r. change_status_of r m.organization m.source merged)
  on_merge (λ x. mark_applied x now)
  pure (record {
    organization = m.organization;
    source = m.source;
    target = m.target;
    applied_at = now;
    moved_associations = moved;
  })
