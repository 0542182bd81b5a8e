-- ===== src/Organization/Membership.antt =====
-- src/organization/membership.cpp: a membership, its state and its roles. A method that changes
-- the membership returns it beside the status.
pub mod Roles
pub mod Lifecycle
use openproof.Base.{
  Bool, true, false, ◌&&◌, ◌||◌, List, [], ◌∷◌, ◌++◌, Text, text_key, ◌==◌, is_empty, contains,
  sort_by, if◌then◌else◌,
}
use openproof.Foundation.{
  Result, ok, fail, Status, Instant, invalid_argument, failed_precondition, not_found,
}

pub data MembershipState : Type 0 where
  invited active suspended removed : MembershipState

unfoldable pub permits_access : MembershipState → Bool
permits_access invited = false
permits_access active = true
permits_access suspended = false
permits_access removed = false

pub record Membership : Type 0 where
  pub organization : Text
  pub identity : Text
  pub state : MembershipState
  pub invited_at : Instant
  pub roles : List Text

unfoldable pub invite : Text → Text → Instant → Result Membership
invite organization identity invited_at =
    if is_empty organization || is_empty identity
    then fail invalid_argument
    else ok (record {
      organization = organization;
      identity = identity;
      state = invited;
      invited_at = invited_at;
      roles = [];
    })

unfoldable pub has_role : Membership → Text → Bool
has_role m role = if permits_access m.state then contains role m.roles else false

accept_from : MembershipState → Membership → Membership × Status
accept_from invited m = (record m { state = active }, ok tt)
accept_from active m = (m, fail failed_precondition)
accept_from suspended m = (m, fail failed_precondition)
accept_from removed m = (m, fail failed_precondition)

unfoldable pub accept : Membership → Membership × Status
unfolding accept_from
accept m = accept_from m.state m

suspend_from : MembershipState → Membership → Membership × Status
suspend_from active m = (record m { state = suspended }, ok tt)
suspend_from invited m = (m, fail failed_precondition)
suspend_from suspended m = (m, fail failed_precondition)
suspend_from removed m = (m, fail failed_precondition)

unfoldable pub suspend : Membership → Membership × Status
unfolding suspend_from
suspend m = suspend_from m.state m

reinstate_from : MembershipState → Membership → Membership × Status
reinstate_from suspended m = (record m { state = active }, ok tt)
reinstate_from active m = (m, fail failed_precondition)
reinstate_from invited m = (m, fail failed_precondition)
reinstate_from removed m = (m, fail failed_precondition)

unfoldable pub reinstate : Membership → Membership × Status
unfolding reinstate_from
reinstate m = reinstate_from m.state m

abbrev pub is_removed : MembershipState → Bool
is_removed removed = true
is_removed invited = false
is_removed active = false
is_removed suspended = false

-- Removal drops the roles.
unfoldable pub remove : Membership → Membership × Status
remove m =
    if is_removed m.state
    then (m, fail failed_precondition)
    else (record m { state = removed; roles = [] }, ok tt)

unfoldable pub grant_role : Membership → Text → Membership × Status
grant_role m role =
    if is_empty role
    then (m, fail invalid_argument)
    else if is_removed m.state
    then (m, fail failed_precondition)
    else if contains role m.roles
    then (m, ok tt)
    else (record m { roles = sort_by (λ r. r) (m.roles ++ (role ∷ [])) }, ok tt)

-- `erase` of the position that `find` returns.
unfoldable pub erase_first : Text → List Text → List Text
erase_first role [] = []
erase_first role (x ∷ xs) = let rest = erase_first role xs in if x == role then xs else x ∷ rest

unfoldable pub revoke_role : Membership → Text → Membership × Status
unfolding erase_first
revoke_role m role =
    if contains role m.roles
    then (record m { roles = erase_first role m.roles }, ok tt)
    else (m, fail not_found)
