-- ===== src/Consent/Repository.antt =====
-- src/consent/repository.cpp: the grants by identifier. The lock makes each method one step.
use openproof.Base.{
  Bool, ◌&&◌, Option, none, some, List, [], ◌∷◌, Text, text_key, ◌==◌, ◌!=◌, Map, lookup, insert,
  map_values, if◌then◌else◌,
}
use openproof.Foundation.{Result, ok, fail, Status, Instant, not_found, permission_denied}
use openproof.Consent.Model.{ConsentGrant, active_at}
use openproof.Consent.Model as Model

abbrev pub ConsentRepository : Type 0
ConsentRepository = Map Text ConsentGrant

-- The grant is for the three of them.
unfoldable pub is_for : (identity client audience : Text) → ConsentGrant → Bool
is_for identity client audience g =
    (g.identity == identity) && (g.client == client) && (g.audience == audience)

-- What the loop of `save` does to a grant that is there.
unfoldable pub supersede : ConsentGrant → ConsentGrant → ConsentGrant
supersede g value =
    if is_for g.identity g.client g.audience value && active_at value g.granted_at
    then Model.revoke value g.granted_at
    else value

unfoldable pub save : ConsentRepository → ConsentGrant → ConsentRepository × Status
save r g = (insert g.id g (map_values (supersede g) r), ok tt)

unfoldable pub first_active :
    (identity client audience : Text) → Instant → ConsentRepository → Option ConsentGrant
first_active identity client audience now [] = none
first_active identity client audience now ((id, g) ∷ r) =
    let rest = first_active identity client audience now r in
    if is_for identity client audience g && active_at g now then some g else rest

unfoldable pub find_active :
    ConsentRepository → (identity client audience : Text) → Instant → Result (Option ConsentGrant)
find_active r identity client audience now = ok (first_active identity client audience now r)

of_identity : Text → ConsentRepository → List ConsentGrant
of_identity identity [] = []
of_identity identity ((id, g) ∷ r) =
    let rest = of_identity identity r in if g.identity == identity then g ∷ rest else rest

unfoldable pub list : ConsentRepository → Text → Result (List ConsentGrant)
unfolding of_identity
list r identity = ok (of_identity identity r)

revoke_found :
    ConsentRepository
    → (id identity : Text) → Instant
    → Option ConsentGrant
    → ConsentRepository × Status
revoke_found r id identity now none = (r, fail not_found)
revoke_found r id identity now (some g) =
    if g.identity != identity
    then (r, fail permission_denied)
    else (insert id (Model.revoke g now) r, ok tt)

unfoldable pub revoke :
    ConsentRepository → (id identity : Text) → Instant → ConsentRepository × Status
unfolding revoke_found
revoke r id identity now = revoke_found r id identity now (lookup id r)
