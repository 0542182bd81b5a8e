-- ===== src/Examples/Consents.antt =====
-- Runs of consents.
use openproof.Base.{
  insert, map_values, contains, all_of, any_of, has_byte, sort_unique, place, ◌≡◌, refl, false,
  some, none, List, [], ◌∷◌, Text, text_key, bytes, arith,
}
use openproof.Foundation.{ok}
use openproof.Client.Model.{create_scope}
use openproof.Consent.Model.{ConsentGrant, create, restore, normalize_scopes, in_time}
use openproof.Consent.Model as Model
use openproof.Consent.Repository.{ConsentRepository, save, supersede, is_for}
use openproof.Consent.Repository as Repository
use openproof.Consent.Service.{grant, covers, revoke, expiry}
use openproof.Consent.Withdrawal.{covers-grant, covers-revoke}

-- An older consent of the same identity, to more.
abbrev consents : ConsentRepository
consents =
    (
      bytes "opcns_0",
      record {
        id = bytes "opcns_0";
        identity = bytes "ada";
        client = bytes "web";
        audience = bytes "api";
        scopes = bytes "read" ∷ bytes "write" ∷ [];
        granted_at = 1;
        expires_at = none;
        revoked_at = none;
      },
    )
    ∷ []

abbrev reading : List Text
reading = bytes "read" ∷ []

abbrev given : ConsentGrant
given = record {
  id = bytes "opcns_1";
  identity = bytes "ada";
  client = bytes "web";
  audience = bytes "api";
  scopes = reading;
  granted_at = 5;
  expires_at = some 15;
  revoked_at = none;
}

-- What was covered by the older consent only is not covered any more.
covers-grant_example :
    covers
      (grant
        (bytes "ada")
        (bytes "web")
        (bytes "api")
        reading
        (some 10)
        (ok (bytes "1"))
        5
        consents).0
      (bytes "ada")
      (bytes "web")
      (bytes "api")
      (bytes "read" ∷ bytes "write" ∷ [])
      7
    ≡ ok false
unfolding grant create restore normalize_scopes any_of create_scope has_byte sort_unique place
    expiry in_time all_of contains save insert map_values supersede
covers-grant_example =
    covers-grant consents (bytes "ada") (bytes "web") (bytes "api") reading
      (bytes "read" ∷ bytes "write" ∷ []) (some 10) (ok (bytes "1")) 5 7 {g = given} (tt, tt) refl
      (ground arith)

covers-revoke_example :
    covers
      (revoke
        (bytes "opcns_1")
        (bytes "ada")
        6
        (grant
          (bytes "ada")
          (bytes "web")
          (bytes "api")
          reading
          (some 10)
          (ok (bytes "1"))
          5
          consents).0).0
      (bytes "ada")
      (bytes "web")
      (bytes "api")
      reading
      7
    ≡ ok false
unfolding grant create restore normalize_scopes any_of create_scope has_byte sort_unique place
    expiry save insert map_values supersede is_for Model.revoke Model.active_at revoke
    Repository.revoke
covers-revoke_example =
    covers-revoke consents (bytes "ada") (bytes "web") (bytes "api") reading reading (some 10)
      (ok (bytes "1")) 5 6 7 {g = given} (tt, tt) refl refl (ground arith)
