-- ===== src/Identity/Subject.antt =====
-- src/identity/core/identity.cpp: a canonical identity and its status.
use openproof.Base.{Bool, true, false, Text, is_empty, if◌then◌else◌}
use openproof.Foundation.{Result, ok, fail, Status, Instant, invalid_argument, failed_precondition}

pub data SubjectKind : Type 0 where
  human service workload organization : SubjectKind

pub data IdentityStatus : Type 0 where
  active suspended locked deactivated deleted merged : IdentityStatus

unfoldable pub permits_authentication : IdentityStatus → Bool
permits_authentication active = true
permits_authentication suspended = false
permits_authentication locked = false
permits_authentication deactivated = false
permits_authentication deleted = false
permits_authentication merged = false

pub record Identity : Type 0 where
  pub id : Text
  pub kind : SubjectKind
  pub status : IdentityStatus
  pub created_at : Instant

unfoldable pub create : Text → SubjectKind → Instant → Result Identity
create id kind created_at =
    if is_empty id
    then fail invalid_argument
    else ok (record { id = id; kind = kind; status = active; created_at = created_at })

unfoldable pub can_authenticate : Identity → Bool
unfolding permits_authentication
can_authenticate i = permits_authentication i.status

change_from : IdentityStatus → Identity → IdentityStatus → Identity × Status
change_from deleted i status = (i, fail failed_precondition)
change_from merged i status = (i, fail failed_precondition)
change_from active i status = (record i { status = status }, ok tt)
change_from suspended i status = (record i { status = status }, ok tt)
change_from locked i status = (record i { status = status }, ok tt)
change_from deactivated i status = (record i { status = status }, ok tt)

-- A deleted or a merged identity keeps its status.
unfoldable pub change_status : Identity → IdentityStatus → Identity × Status
unfolding change_from
change_status i status = change_from i.status i status
