-- ===== src/Client/Manager.antt =====
-- src/client/service.cpp: the manager of the clients. The state is the repository; the repository of
-- the applications, which it only reads, randomness and the clock are arguments.
pub mod Registering
pub mod Redirects
pub mod Changes
pub mod Revocation
use openproof.Base.{
  lookup, text_key, Bool, true, false, not, ◌||◌, Option, none, some, is_some, List, [], ◌∷◌, ◌++◌,
  Text, bytes, ltb, is_empty, length, if◌then◌else◌,
}
use openproof.Foundation.{
  Result, ok, fail, Status, Instant, ErrorCode, refuse_if, invalid_argument, authentication_failed,
  failed_precondition, not_found,
}
use openproof.Foundation as Plain
use openproof.Foundation.Exec.{Exec, pure, lift, ◌>>=◌, ◌>>◌}
use openproof.Security.{Crypto, hmac_sha256, constant_time_equals}
use openproof.Application.Model.{Application}
use openproof.Application.Model as Applications
use openproof.Application.Repository.{ApplicationRepository}
use openproof.Client.Model.{
  Client, ClientKind, create, create_scope, create_redirect_uri, client_is_public, is_public,
  permits_authorization, replace_secret,
}
use openproof.Client.Model as Model
use openproof.Client.Repository.{ClientRepository, add, save, find_by_id}

unfoldable pub create_key : Text → Result Text
create_key key = if ltb (length key) 32 then fail invalid_argument else ok key

pub record ClientRegistration : Type 0 where
  pub client : Client
  pub secret : Option Text

permits_found : Option Application → Bool
permits_found none = false
permits_found (some a) = Applications.permits_authorization a.status

-- An application that is there and active: its look-up never fails in memory.
unfoldable pub application_permits : ApplicationRepository → Text → Bool
unfolding permits_found
application_permits applications id = permits_found (lookup id applications.applications)

kept : Text → Result (List Text) → Result (List Text)
kept t (fail e) = fail e
kept t (ok ts) = ok (t ∷ ts)

-- The loops that parse each value in turn and stop at the first that is refused.
unfoldable pub parse_each : (Text → Result Text) → List Text → Result (List Text)
unfolding kept
parse_each parse [] = ok []
parse_each parse (t ∷ ts) = Plain.◌>>=◌ (parse t) (λ u. kept u (parse_each parse ts))

required : Result (Option Client) → Result Client
required (fail e) = fail e
required (ok none) = fail not_found
required (ok (some c)) = ok c

unfoldable pub require : Text → Exec ClientRepository Client
unfolding required
require id r = (r, required (find_by_id r id))

active_found : ApplicationRepository → Option Client → Result Client
active_found applications none = fail authentication_failed
active_found applications (some c) =
    if not (permits_authorization c)
    then fail authentication_failed
    else if not (application_permits applications c.application_id)
    then fail authentication_failed
    else ok c

unfoldable pub require_active : ApplicationRepository → ClientRepository → Text → Result Client
unfolding active_found
require_active applications r id =
    Plain.◌>>=◌ (find_by_id r id) (λ found. active_found applications found)

pub changed : (Client → Client × Status) → Text → Exec ClientRepository Client
changed f id = do
  client ← require id
  lift ((f client).1)
  (λ r. save r (f client).0)
  pure ((f client).0)

unfoldable pub suspend : Text → Instant → Exec ClientRepository Client
unfolding changed
suspend id now = changed (λ c. Model.suspend c now) id

unfoldable pub activate : Text → Instant → Exec ClientRepository Client
unfolding changed
activate id now = changed (λ c. Model.activate c now) id

unfoldable pub revoke : Text → Instant → Exec ClientRepository Client
unfolding changed
revoke id now = changed (λ c. Model.revoke c now) id

module _ ⦃crypto : Crypto⦄ (secret_key : Text) where
  unfoldable pub digest : Text → Result Text
  digest secret =
      if is_empty secret then fail authentication_failed else hmac_sha256 secret_key secret

  -- The secret of a confidential client, with its digest.
  pub new_secret : Bool → Result Text → Result (Option (Text × Text))
  new_secret true generated = ok none
  new_secret false generated =
      Plain.◌>>=◌ generated
        (λ g. Plain.◌>>=◌ (digest (bytes "ops_" ++ g)) (λ d. ok (some (bytes "ops_" ++ g, d))))

  pub first : Option (Text × Text) → Option Text
  first none = none
  first (some (a, b)) = some a

  pub second : Option (Text × Text) → Option Text
  second none = none
  second (some (a, b)) = some b

  unfoldable pub register_client :
      ApplicationRepository
      → (application_id display_name : Text) → ClientKind
      → (redirect_uris scopes : List Text) → (random_id generated : Result Text) → Instant
      → Exec ClientRepository ClientRegistration
  unfolding new_secret first second
  register_client applications application_id display_name kind redirect_uris scopes random_id
        generated now =
      do
        lift (refuse_if (not (application_permits applications application_id)) failed_precondition)
        redirects ← lift (parse_each (λ u. create_redirect_uri u kind) redirect_uris)
        parsed ← lift (parse_each create_scope scopes)
        fresh ← lift random_id
        secret ← lift (new_secret (client_is_public kind) generated)
        client ← lift (
            create (bytes "opc_" ++ fresh) application_id display_name kind redirects parsed
              (second secret) now)
        (λ r. add r client)
        pure (record { client = client; secret = first secret })

  unfoldable pub rotate_secret : Text → Result Text → Instant → Exec ClientRepository Text
  rotate_secret id generated now = do
    client ← require id
    lift (refuse_if (is_public client) failed_precondition)
    raw ← lift generated
    calculated ← lift (digest (bytes "ops_" ++ raw))
    lift ((replace_secret client calculated now).1)
    (λ r. save r (replace_secret client calculated now).0)
    pure (bytes "ops_" ++ raw)

  -- The comparison of the digests; a secret whose digest fails does not match.
  matches : Result Text → Option Text → Bool
  matches calculated none = false
  matches (fail e) (some stored) = false
  matches (ok calculated) (some stored) = constant_time_equals calculated stored

  checked : Client → Option Text → Result Client
  unfolding matches
  checked c none = if is_public c then ok c else fail authentication_failed
  checked c (some secret) =
      if is_public c
      then fail authentication_failed
      else if matches (digest secret) c.secret_digest
      then ok c
      else fail authentication_failed

  unfoldable pub authenticate :
      ApplicationRepository → ClientRepository → Text → Option Text → Result Client
  unfolding checked
  authenticate applications r id presented =
      Plain.◌>>=◌ (require_active applications r id) (λ c. checked c presented)
