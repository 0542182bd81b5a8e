-- ===== src/Organization/Membership/Lifecycle.antt =====
-- src/organization/membership.cpp: the roles of a membership over its life.
use openproof.Base.{
  refl, ◌≡◌, true, false, List, [], ◌∷◌, Text, text_key, ◌==◌, is_empty, IsAscending, if◌then◌else◌,
  arith,
}
use openproof.Foundation.{ok, Instant}
use openproof.Organization.Membership.{
  Membership, invite, has_role, accept, suspend, reinstate, remove, grant_role, revoke_role,
  is_removed, removed, permits_access,
}
use openproof.Organization.Membership.Roles.{
  sort_append-IsAscending, erase_first-IsAscending, contains-erase_first, erase_first-empty,
}

-- The roles ascend, so none stands twice, and a membership that was removed has none.
pub record IsSound (m : Membership) : Type 0 where
  pub ascending : IsAscending m.roles
  pub dropped : (if is_removed m.state then is_empty m.roles else true) ≡ true

pub data Change : Type 0 where
  accepts suspends reinstates removes : Change
  grants revokes : Text → Change

unfoldable pub step : Membership → Change → Membership
step m accepts = (accept m).0
step m suspends = (suspend m).0
step m reinstates = (reinstate m).0
step m removes = (remove m).0
step m (grants r) = (grant_role m r).0
step m (revokes r) = (revoke_role m r).0

unfoldable pub run : Membership → List Change → Membership
run m [] = m
run m (c ∷ cs) = run (step m c) cs

grant_role-IsSound : (m : Membership) (r : Text) → IsSound m → IsSound (grant_role m r).0
unfolding grant_role
grant_role-IsSound m r s = record {
  ascending = ground (arith, s.ascending, sort_append-IsAscending r m.roles);
  dropped = ground (arith, s.dropped);
}

revoke_role-IsSound : (m : Membership) (r : Text) → IsSound m → IsSound (revoke_role m r).0
unfolding revoke_role
revoke_role-IsSound m r s = record {
  ascending = ground (arith, s.ascending, erase_first-IsAscending r m.roles);
  dropped = ground (arith, s.dropped, erase_first-empty r m.roles);
}

step-IsSound : (m : Membership) (c : Change) → IsSound m → IsSound (step m c)
unfolding step accept suspend reinstate remove
step-IsSound m accepts s = record {
  ascending = ground (arith, s.ascending);
  dropped = ground (arith, s.dropped);
}
step-IsSound m suspends s = record {
  ascending = ground (arith, s.ascending);
  dropped = ground (arith, s.dropped);
}
step-IsSound m reinstates s = record {
  ascending = ground (arith, s.ascending);
  dropped = ground (arith, s.dropped);
}
step-IsSound m removes s = record {
  ascending = ground (arith, s.ascending);
  dropped = ground (arith, s.dropped);
}
step-IsSound m (grants r) s = grant_role-IsSound m r s
step-IsSound m (revokes r) s = revoke_role-IsSound m r s

run-IsSound : (m : Membership) (cs : List Change) → IsSound m → IsSound (run m cs)
unfolding run
run-IsSound m [] s = s
run-IsSound m (c ∷ cs) s = run-IsSound (step m c) cs (step-IsSound m c s)

-- Over any history of an invitation, the roles of the membership ascend, so that none is held
-- twice, and a membership that was removed holds none.
pub run-invite-IsSound :
    (organization identity : Text) (invited_at : Instant) (cs : List Change) {m : Membership}
    → invite organization identity invited_at ≡ ok m
    → IsSound (run m cs)
unfolding invite
run-invite-IsSound organization identity invited_at cs {m} h =
    run-IsSound m cs (record { ascending = ground arith; dropped = ground arith })

-- Over any history of an invitation, a revocation of a role that succeeds takes that role away at
-- once, and every other role is held or not as before.
pub has_role-revoke_role :
    (organization identity : Text) (invited_at : Instant) (cs : List Change) {m : Membership}
    (r b : Text)
    → invite organization identity invited_at ≡ ok m
    → (revoke_role (run m cs) r).1 ≡ ok tt
    → has_role (revoke_role (run m cs) r).0 b ≡ (if r == b then false else has_role (run m cs) b)
unfolding has_role revoke_role
has_role-revoke_role organization identity invited_at cs {m} r b h e =
    let sound : IsSound (run m cs) = run-invite-IsSound organization identity invited_at cs h in
    ground (arith, contains-erase_first b r (run m cs).roles sound.ascending)

removed-stays :
    (m : Membership) (c : Change) → is_removed m.state ≡ true → m.roles ≡ [] → step m c ≡ m
unfolding step accept suspend reinstate remove grant_role revoke_role
removed-stays m accepts h e = ground arith
removed-stays m suspends h e = ground arith
removed-stays m reinstates h e = ground arith
removed-stays m removes h e = ground arith
removed-stays m (grants r) h e = ground arith
removed-stays m (revokes r) h e = ground arith

run-removed :
    (m : Membership) (cs : List Change) → is_removed m.state ≡ true → m.roles ≡ [] → run m cs ≡ m
unfolding run
run-removed m [] h e = refl
run-removed m (c ∷ cs) h e = rw (removed-stays m c h e) (run-removed m cs h e)

-- Over any history of an invitation the roles of the membership ascend, so that none is held twice,
-- and a removal that succeeds then is final: whatever is asked of the membership later, it stays
-- removed, without roles and as the removal left it, and it has no role and gives no access.
pub remove-final :
    (organization identity : Text) (invited_at : Instant) (cs later : List Change) (role : Text)
    {m : Membership}
    → invite organization identity invited_at ≡ ok m
    → (remove (run m cs)).1 ≡ ok tt
    → IsSound (run m cs)
      × ((run (remove (run m cs)).0 later).state ≡ removed)
      × ((run (remove (run m cs)).0 later).roles ≡ [])
      × (run (remove (run m cs)).0 later ≡ (remove (run m cs)).0)
      × (has_role (run (remove (run m cs)).0 later) role ≡ false)
      × (permits_access (run (remove (run m cs)).0 later).state ≡ false)
unfolding remove has_role permits_access
remove-final organization identity invited_at cs later role {m} h e =
    let same = run-removed (remove (run m cs)).0 later (ground arith) (ground arith) in
    (
      run-invite-IsSound organization identity invited_at cs h,
      ground (arith, same),
      ground (arith, same),
      same,
      ground (arith, same),
      ground (arith, same),
    )
