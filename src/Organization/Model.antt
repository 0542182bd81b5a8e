-- ===== src/Organization/Model.antt =====
-- src/organization/organization.cpp: an organization and its status.
use openproof.Base.{Bool, true, false, ◌||◌, Text, is_empty, if◌then◌else◌}
use openproof.Foundation.{Result, ok, fail, Status, Instant, invalid_argument, failed_precondition}

pub data OrganizationStatus : Type 0 where
  active suspended archived : OrganizationStatus

unfoldable pub permits_use : OrganizationStatus → Bool
permits_use active = true
permits_use suspended = false
permits_use archived = false

pub record Organization : Type 0 where
  pub id : Text
  pub display_name : Text
  pub status : OrganizationStatus
  pub created_at : Instant

unfoldable pub create : Text → Text → Instant → Result Organization
create id display_name created_at =
    if is_empty id || is_empty display_name
    then fail invalid_argument
    else ok
        (record { id = id; display_name = display_name; status = active; created_at = created_at })

unfoldable pub is_usable : Organization → Bool
unfolding permits_use
is_usable o = permits_use o.status

is_archived : OrganizationStatus → Bool
is_archived active = false
is_archived suspended = false
is_archived archived = true

unfoldable pub change_status : Organization → OrganizationStatus → Organization × Status
unfolding is_archived
change_status o status =
    if is_archived o.status
    then (o, fail failed_precondition)
    else (record o { status = status }, ok tt)

unfoldable pub rename : Organization → Text → Organization × Status
unfolding is_archived
rename o display_name =
    if is_empty display_name
    then (o, fail invalid_argument)
    else if is_archived o.status
    then (o, fail failed_precondition)
    else (record o { display_name = display_name }, ok tt)
