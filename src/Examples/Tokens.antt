-- ===== src/Examples/Tokens.antt =====
-- Runs of the token repository and of the token service.
use openproof.Base.{
  arith, ℕ, insert, contains, all_of, sort_unique, place, ◌≡◌, refl, true, none, some, [], ◌∷◌,
  Text, text_key, bytes, lookup,
}
use openproof.Foundation.{ok, fail, authentication_failed}
use openproof.Foundation.Encoding.{to_hex, hex_digit}
use openproof.Security.{hmac_sha256}
use openproof.Identity.Assurance.{ial2}
use openproof.Token.Model.{
  TokenContext, TokenClaims, token_context, permits, permits_audience, AccessTokenRecord,
  RefreshTokenRecord, access_usable_at, refresh_usable_at, mark_used, next_sequence,
}
use openproof.Token.Store.{
  TokenRepository, empty, store_initial, store_access_only, find_access, find_refresh,
  rotate_refresh,
}
use openproof.Token.Store.Calls.{revokes, rotates, run}
use openproof.Token.Store.Families.{IsDead}
use openproof.Token.Store.Reuse.{rotate_refresh-replay, run-rotate_refresh_unusable}
use openproof.Token.Grant.{
  TokenService, TokenGrant, MachineTokenGrant, access_record, refresh_record, same_constraint,
}
use openproof.Token.Service.{
  digest, make_initial, introspect, issue_token_exchange, refresh, make_rotation,
}
use openproof.Token.Service.Narrowing.{IsNarrowed, issue_token_exchange-narrows}
use openproof.Token.Service.Rotating.{refresh-keeps}
use openproof.Client.Manager.{require_active, application_permits}
use openproof.Client.Model.{client_permits_authorization}
use openproof.Client.Model as Clients
use openproof.Application.Model as Applications
use openproof.Client.Repository.{find_by_id}
use openproof.Examples.{example_crypto, strong, fill, applications, clients}

abbrev context : TokenContext
context = record {
  client = bytes "app";
  identity = bytes "ada";
  provider = bytes "passkey";
  assurance = ial2;
  strength = strong;
  scopes = bytes "read" ∷ bytes "write" ∷ [];
  audiences = bytes "api" ∷ [];
  sender_constraint = none;
  authenticated_at = 900;
}

abbrev service : TokenService
service = record {
  key = bytes "key";
  policy = record { access_lifetime = 600; refresh_lifetime = 9000 };
  applications = applications;
  clients = clients;
}

abbrev access_of : Text → AccessTokenRecord
access_of d = access_record d (bytes "f") context 1000 1600

abbrev refresh_of : ℕ → Text → RefreshTokenRecord
refresh_of n d = refresh_record d (bytes "f") n context 1000 10000

abbrev granted : TokenRepository
granted = (store_initial empty (access_of (bytes "a0")) (refresh_of 0 (bytes "r0"))).0

rotate_refresh-replay_example :
    ((rotate_refresh
        (run
          (rotate_refresh granted
            (bytes "r0")
            1100
            (access_of (bytes "a1"))
            (refresh_of 1 (bytes "r1"))).0
          (rotates (bytes "r1") 1200 (access_of (bytes "a2")) (refresh_of 2 (bytes "r2")) ∷ []))
        (bytes "r0")
        1300
        (access_of (bytes "a3"))
        (refresh_of 1 (bytes "r3"))).1
      ≡ fail authentication_failed)
    × IsDead
        (bytes "f")
        (rotate_refresh
          (run
            (rotate_refresh granted
              (bytes "r0")
              1100
              (access_of (bytes "a1"))
              (refresh_of 1 (bytes "r1"))).0
            (rotates (bytes "r1") 1200 (access_of (bytes "a2")) (refresh_of 2 (bytes "r2")) ∷ []))
          (bytes "r0")
          1300
          (access_of (bytes "a3"))
          (refresh_of 1 (bytes "r3"))).0
unfolding access_record refresh_record store_initial empty rotate_refresh insert to_hex hex_digit
    refresh_usable_at next_sequence mark_used
rotate_refresh-replay_example =
    rotate_refresh-replay granted (bytes "r0") 1100 1300 (access_of (bytes "a1"))
      (access_of (bytes "a3")) (refresh_of 1 (bytes "r1")) (refresh_of 1 (bytes "r3"))
      (rotates (bytes "r1") 1200 (access_of (bytes "a2")) (refresh_of 2 (bytes "r2")) ∷ []) refl

run-rotate_refresh_unusable_example : IsDead (bytes "f") (
    run
      (rotate_refresh granted
        (bytes "r0")
        20000
        (access_of (bytes "a1"))
        (refresh_of 1 (bytes "r1"))).0
      (rotates (bytes "r0") 20001 (access_of (bytes "a2")) (refresh_of 1 (bytes "r2"))
        ∷ revokes (bytes "a0") 20002
        ∷ []))
unfolding access_record refresh_record store_initial empty insert to_hex hex_digit refresh_usable_at
run-rotate_refresh_unusable_example =
    run-rotate_refresh_unusable granted (bytes "r0") 20000 (access_of (bytes "a1"))
      (refresh_of 1 (bytes "r1")) (refresh_of 0 (bytes "r0"))
      (rotates (bytes "r0") 20001 (access_of (bytes "a2")) (refresh_of 1 (bytes "r2"))
        ∷ revokes (bytes "a0") 20002
        ∷ [])
      refl refl (tt, (tt, tt))

abbrev issued : TokenRepository
issued =
    (make_initial service context (ok (bytes "f")) (ok (bytes "a")) (ok (bytes "r")) 1000 empty).0

abbrev exchanged : MachineTokenGrant
exchanged = record {
  access_token = bytes "opa_b";
  expires_in = 600;
  context = record context { scopes = bytes "read" ∷ [] };
}

issue_token_exchange-narrows_example :
    (source : TokenClaims) × ((introspect service (bytes "opa_a") 1200 issued).1 ≡ ok source)
    × IsNarrowed source.context exchanged.context
    × ((introspect service
          (bytes "opa_b")
          1500
          (issue_token_exchange service
            (bytes "app")
            (bytes "opa_a")
            (bytes "api")
            (bytes "read" ∷ [])
            none
            (ok (bytes "g"))
            (ok (bytes "b"))
            1200
            1201
            issued).0).1
        ≡ ok (record {
          is_active = true;
          context = exchanged.context;
          issued_at = 1201;
          expires_at = 1801;
        }))
unfolding make_initial digest hmac_sha256 require_active find_by_id client_permits_authorization
    application_permits Clients.permits_authorization Applications.permits_authorization
    store_initial empty access_record refresh_record to_hex hex_digit insert issue_token_exchange
    introspect find_access access_usable_at store_access_only same_constraint permits
    permits_audience contains all_of token_context sort_unique place
issue_token_exchange-narrows_example =
    issue_token_exchange-narrows service (bytes "app") (bytes "opa_a") (bytes "api")
      (bytes "read" ∷ []) none (ok (bytes "g")) (ok (bytes "b")) 1200 1201 1500 issued
      {grant = exchanged} refl (omega arith)

abbrev digest_r : Text
digest_r = fill 32 (bytes "opr_r")

abbrev renewed : TokenGrant
renewed = record {
  access_token = bytes "opa_x";
  refresh_token = bytes "opr_y";
  expires_in = 600;
  context = context;
}

refresh-keeps_example :
    (bytes "app" ≡ bytes "app")
    × (same_constraint none none ≡ true)
    × (refresh_usable_at (refresh_record digest_r (bytes "f") 0 context 1000 10000) 1200 ≡ true)
    × (context ≡ context)
    × ((d' : Text) × (t : RefreshTokenRecord) × (digest service (bytes "opr_y") ≡ ok d')
        × (lookup
              (to_hex d')
              (refresh service
                (bytes "app")
                (bytes "opr_r")
                none
                (ok (bytes "x"))
                (ok (bytes "y"))
                1200
                issued).0.refresh
            ≡ some t)
        × (t.context ≡ context)
        × (t.family ≡ bytes "f")
        × (t.expires_at ≡ 10000))
    × ((introspect service
          (bytes "opa_x")
          1500
          (refresh service
            (bytes "app")
            (bytes "opr_r")
            none
            (ok (bytes "x"))
            (ok (bytes "y"))
            1200
            issued).0).1
        ≡ ok (record { is_active = true; context = context; issued_at = 1200; expires_at = 1800 }))
unfolding make_initial digest hmac_sha256 require_active find_by_id client_permits_authorization
    application_permits Clients.permits_authorization Applications.permits_authorization
    store_initial empty access_record refresh_record to_hex hex_digit insert refresh find_refresh
    make_rotation rotate_refresh refresh_usable_at same_constraint mark_used next_sequence
refresh-keeps_example =
    refresh-keeps service (bytes "app") (bytes "opr_r") none (ok (bytes "x")) (ok (bytes "y")) 1200
      1500 issued {grant = renewed} {d = digest_r}
      {found = refresh_record digest_r (bytes "f") 0 context 1000 10000} refl refl refl refl
      (omega arith)
