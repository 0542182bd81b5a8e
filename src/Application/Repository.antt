-- ===== src/Application/Repository.antt =====
-- src/application/repository.cpp: applications by identifier of the record, and these by owner and
-- identifier of the application, joined by a zero byte.
use openproof.Base.{
  ◌||◌, Option, none, some, List, [], ◌∷◌, ◌++◌, Text, text_key, ◌!=◌, Map, lookup, contains_key,
  insert, if◌then◌else◌,
}
use openproof.Foundation.{
  Result, ok, fail, Status, already_exists, not_found, failed_precondition, internal,
}
use openproof.Application.Model.{Application}

pub record ApplicationRepository : Type 0 where
  pub applications : Map Text Application
  pub identifiers : Map Text Text

unfoldable pub empty : ApplicationRepository
empty = record { applications = []; identifiers = [] }

unfoldable pub tenant_identifier_key : Text → Text → Text
tenant_identifier_key owner identifier = owner ++ (0 ∷ identifier)

unfoldable pub add : ApplicationRepository → Application → ApplicationRepository × Status
add r a =
    if contains_key a.id r.applications
      || contains_key (tenant_identifier_key a.owner a.identifier) r.identifiers
    then (r, fail already_exists)
    else (
      record {
        applications = insert a.id a r.applications;
        identifiers = insert (tenant_identifier_key a.owner a.identifier) a.id r.identifiers;
      },
      ok tt,
    )

save_found :
    ApplicationRepository → Application → Option Application → ApplicationRepository × Status
save_found r a none = (r, fail not_found)
save_found r a (some found) =
    if found.identifier != a.identifier
    then (r, fail failed_precondition)
    else (record r { applications = insert a.id a r.applications }, ok tt)

unfoldable pub save : ApplicationRepository → Application → ApplicationRepository × Status
unfolding save_found
save r a = save_found r a (lookup a.id r.applications)

unfoldable pub find_by_id : ApplicationRepository → Text → Result (Option Application)
find_by_id r id = ok (lookup id r.applications)

indexed : Option Application → Result (Option Application)
indexed none = fail internal
indexed (some a) = ok (some a)

find_indexed : ApplicationRepository → Option Text → Result (Option Application)
unfolding indexed
find_indexed r none = ok none
find_indexed r (some id) = indexed (lookup id r.applications)

unfoldable pub find_by_identifier :
    ApplicationRepository → Text → Text → Result (Option Application)
unfolding find_indexed
find_by_identifier r owner identifier =
    find_indexed r (lookup (tenant_identifier_key owner identifier) r.identifiers)

values : Map Text Application → List Application
values [] = []
values ((id, a) ∷ m) = a ∷ values m

unfoldable pub list : ApplicationRepository → Result (List Application)
unfolding values
list r = ok (values r.applications)
