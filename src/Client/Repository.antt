-- ===== src/Client/Repository.antt =====
-- src/client/repository.cpp: clients by identifier.
use openproof.Base.{
  Bool, true, false, ◌||◌, not, Option, none, some, List, [], ◌∷◌, Text, text_key, ◌==◌, ◌!=◌, Map,
  lookup, contains_key, insert, if◌then◌else◌,
}
use openproof.Foundation.{Result, ok, fail, Status, already_exists, not_found, failed_precondition}
use openproof.Client.Model.{Client, ClientKind, web, native, browser, service}

abbrev pub ClientRepository : Type 0
ClientRepository = Map Text Client

unfoldable pub add : ClientRepository → Client → ClientRepository × Status
add r c = if contains_key c.id r then (r, fail already_exists) else (insert c.id c r, ok tt)

unfoldable pub same_kind : ClientKind → ClientKind → Bool
same_kind web web = true
same_kind native native = true
same_kind browser browser = true
same_kind service service = true
same_kind _ _ = false

save_found : ClientRepository → Client → Option Client → ClientRepository × Status
save_found r c none = (r, fail not_found)
save_found r c (some found) =
    if (found.application_id != c.application_id) || not (same_kind found.kind c.kind)
    then (r, fail failed_precondition)
    else (insert c.id c r, ok tt)

unfoldable pub save : ClientRepository → Client → ClientRepository × Status
unfolding save_found same_kind
save r c = save_found r c (lookup c.id r)

unfoldable pub find_by_id : ClientRepository → Text → Result (Option Client)
find_by_id r id = ok (lookup id r)

of_application : Text → ClientRepository → List Client
of_application application_id [] = []
of_application application_id ((id, c) ∷ r) =
    let rest = of_application application_id r in
    if c.application_id == application_id then c ∷ rest else rest

unfoldable pub clients_of : ClientRepository → Text → Result (List Client)
unfolding of_application
clients_of r application_id = ok (of_application application_id r)
