-- ===== src/Examples/Devices.antt =====
-- Runs of the authorization of devices, and of the tokens that devices are granted.
use openproof.Base.{
  ◌*◌, ◌+◌, insert, all_of, sort_by, insert_by, has_adjacent, sort_unique, place, ◌≡◌, refl, false,
  none, some, List, [], ◌∷◌, Text, text_key, bytes, lookup, ◌++◌, ◌<◌,
}
use openproof.Foundation.{ok, Instant}
use openproof.Foundation.Encoding.{to_hex, hex_digit}
use openproof.Security.{hmac_sha256}
use openproof.Session.Model.{Session}
use openproof.Oauth.Device.Model.{
  DeviceAuthorization, pending, approved, consumed, create, restore, normalize_scopes,
  approved_claims, expired_at, slow_down, consume, mark_polled,
}
use openproof.Oauth.Device.Model as Model
use openproof.Oauth.Device.Store.{
  DeviceAuthorizationStore, DevicePollResult, empty, digest_key, add, find_mapped, approve, deny,
  poll,
}
use openproof.Oauth.Device.Store as Store
use openproof.Oauth.Device.Ceremony.{Event, begins, approves, polls, add_created, step, run}
use openproof.Oauth.Device.Ceremony.Once.{gives_approval, poll-once, deny-final}
use openproof.Oauth.Device.Ceremony.Pace.{poll_each, is_hasty, poll_each-hasty}
use openproof.Application.Model as Applications
use openproof.Client.Manager.{require_active, application_permits}
use openproof.Client.Model.{client_permits_authorization}
use openproof.Client.Model as Clients
use openproof.Client.Repository.{find_by_id}
use openproof.Token.Model.{token_context}
use openproof.Token.Grant.{TokenService, TokenGrant, access_record, refresh_record, optional_list}
use openproof.Token.Store.{store_initial}
use openproof.Token.Store as TokenStore
use openproof.Token.Service.{make_initial}
use openproof.Token.Service as Tokens
use openproof.Token.Service.Device.{issue_device_authorization, issue_device_authorization-poll}
use openproof.Examples.{example_crypto, session_of, applications, clients}

abbrev session : Session
session = session_of (bytes "s1") (bytes "d1")

abbrev begun : Event
begun = begins (bytes "d") (bytes "u") (bytes "app") (bytes "read" ∷ []) none 1000 60000 5000

abbrev events : List Event
events = begun ∷ polls (bytes "d") (bytes "app") 2000 ∷ approves (bytes "u") session 3000 ∷ []

-- What the poll hands out.
abbrev handed : DeviceAuthorization
handed = record {
  device_code = bytes "d";
  user_code = bytes "u";
  client_id = bytes "app";
  scopes = bytes "read" ∷ [];
  resource = none;
  issued_at = 1000;
  expires_at = 61000;
  poll_interval = 5000;
  status = consumed;
  identity = some (bytes "ada");
  provider = some session.provider;
  assurance = some session.assurance;
  strength = some session.strength;
  authenticated_at = some 1000;
  last_poll_at = some 8000;
}

abbrev result : DevicePollResult
result = record { disposition = Store.approved; authorization = some handed; retry_after = 5000 }

given : (poll (run empty events) (bytes "d") (bytes "app") 8000).1 ≡ ok result
unfolding run step add_created create restore normalize_scopes approved_claims sort_by insert_by
    has_adjacent add digest_key to_hex hex_digit empty insert poll mark_polled consume expired_at
    approve find_mapped Model.approve
given = refl

poll-once_example :
    gives_approval
      (poll
        (run
          (poll (run empty events) (bytes "d") (bytes "app") 8000).0
          (approves (bytes "u") session 8500 ∷ []))
        (bytes "d")
        (bytes "app")
        20000).1
    ≡ false
unfolding gives_approval
poll-once_example =
    poll-once (run empty events) (bytes "d") (bytes "app") (bytes "app") 8000 20000
      (approves (bytes "u") session 8500 ∷ []) (rw given refl)

abbrev waiting : DeviceAuthorization
waiting = record handed {
  status = Model.pending;
  identity = none;
  provider = none;
  assurance = none;
  strength = none;
  authenticated_at = none;
  last_poll_at = some 2000;
}

abbrev one_device : DeviceAuthorizationStore
one_device = record {
  by_device = (digest_key (bytes "d"), waiting) ∷ [];
  user_to_device = (digest_key (bytes "u"), digest_key (bytes "d")) ∷ [];
}

deny-final_example :
    gives_approval
      (poll
        (run (deny one_device (bytes "u") 3000).0 (approves (bytes "u") session 4000 ∷ []))
        (bytes "d")
        (bytes "app")
        9000).1
    ≡ false
unfolding deny Model.deny find_mapped digest_key to_hex hex_digit expired_at
deny-final_example =
    deny-final one_device (bytes "u") (bytes "d") (bytes "app") 3000 9000
      (approves (bytes "u") session 4000 ∷ []) {d = waiting} refl refl

poll_each-hasty_example :
    (d : DeviceAuthorization) × (lookup
        (digest_key (bytes "d"))
        (poll_each one_device (bytes "d") (bytes "app") (2500 ∷ 3000 ∷ 3500 ∷ [])).by_device
      ≡ some d)
    × (d.status ≡ Model.pending)
    × (d.poll_interval ≡ 5000 + 5000 * 3)
unfolding digest_key to_hex hex_digit is_hasty all_of
poll_each-hasty_example =
    poll_each-hasty one_device (bytes "d") (bytes "app") (2500 ∷ 3000 ∷ 3500 ∷ []) 2000 waiting refl
      refl refl refl refl refl

abbrev tokens : TokenService
tokens = record {
  applications = applications;
  clients = clients;
  key = bytes "key";
  policy = record { access_lifetime = 600; refresh_lifetime = 9000 };
}

abbrev granted : TokenGrant
granted = record {
  access_token = bytes "opa_a";
  refresh_token = bytes "opr_r";
  expires_in = 600;
  context = record {
    client = bytes "app";
    identity = bytes "ada";
    provider = session.provider;
    assurance = session.assurance;
    strength = session.strength;
    scopes = bytes "read" ∷ [];
    audiences = [];
    sender_constraint = none;
    authenticated_at = 1000;
  };
}

issue_device_authorization-poll_example :
    (bytes "app" ≡ bytes "app")
    × (digest_key (bytes "d") ≡ digest_key (bytes "d"))
    × ((before : List Event) × (user_code : Text) × (s : Session) × (at : Instant) × (after : List
          Event)
        × (a : DeviceAuthorization) × (events ≡ before ++ (approves user_code s at ∷ after))
        × (digest_key user_code ≡ digest_key (bytes "u"))
        × ((approve (run empty before) user_code s at).1 ≡ ok a)
        × (a.device_code ≡ bytes "d")
        × (at < 61000)
        × (bytes "ada" ≡ s.identity)
        × (session.assurance ≡ s.assurance)
        × (1000 ≡ s.authenticated_at))
unfolding issue_device_authorization make_initial Tokens.digest hmac_sha256 require_active
    find_by_id client_permits_authorization application_permits Clients.permits_authorization
    Applications.permits_authorization store_initial access_record refresh_record to_hex hex_digit
    insert token_context sort_unique place optional_list TokenStore.empty
issue_device_authorization-poll_example =
    issue_device_authorization-poll tokens events (bytes "d") (bytes "app") 8000 none
      (ok (bytes "f")) (ok (bytes "a")) (ok (bytes "r")) 9000 TokenStore.empty {result = result}
      {d = handed} {grant = granted} given refl refl
