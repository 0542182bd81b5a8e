-- ===== src/Examples.antt =====
-- Runs of the model at concrete inputs: the data that the modules below share. The cryptographic
-- library is a concrete one here: a comparison of bytes, and a digest that is the text itself, cut or
-- filled up to 32 bytes.
pub mod Sessions
pub mod Services
pub mod Identities
pub mod Tokens
pub mod Transactions
pub mod Clients
pub mod Codes
pub mod Consents
pub mod Devices
pub mod Flows
pub mod Resources
pub mod Pushed
pub mod Permissions
use openproof.Base.{
  ℕ, zero, suc, ◌≡◌, ◌↔◌, ◌≢◌, true, false, Option, none, some, List, [], ◌∷◌, Text, text_key, ◌==◌,
  eq_iff, arith, length, if◌then◌else◌, bytes,
}
use openproof.Application.Model.{Application, development}
use openproof.Application.Model as Applications
use openproof.Application.Repository.{ApplicationRepository}
use openproof.Client.Model.{Client, web, service}
use openproof.Client.Model as Model
use openproof.Client.Repository.{ClientRepository}
use openproof.Security.{Crypto}
use openproof.Identity.Assurance.{AssuranceLevel, ial2, AuthenticationStrength}
use openproof.Session.Model.{Session, active}

abbrev pub compare : Text → Text → ℕ
compare a b = if a == b then 0 else 1

pub compare_zero : (a b : Text) → length a ≡ length b → (compare a b ≡ 0) ↔ (a ≡ b)
compare_zero a b h = ground (arith, eq_iff a b)

abbrev pub fill : ℕ → Text → Text
fill zero text = []
fill (suc n) [] = 0 ∷ fill n []
fill (suc n) (b ∷ bs) = b ∷ fill n bs

instance abbrev pub example_crypto : Crypto
example_crypto = record {
  memcmp = compare;
  memcmp_zero = compare_zero;
  hmac = λ key text. some (fill 32 text);
  evp_sha256 = λ text. some (fill 32 text);
}

abbrev pub strong : AuthenticationStrength
strong = record { factors = 3; phishing_resistant = true }

-- Ten minutes after its issue the session ends, and after three without use.
abbrev pub session_of : Text → Text → Session
session_of id digest = record {
  id = id;
  identity = bytes "ada";
  provider = bytes "passkey";
  assurance = ial2;
  strength = strong;
  state = active;
  authenticated_at = 1000;
  token_digest = digest;
  issued_at = 1000;
  last_seen_at = 1000;
  absolute_expires_at = 601000;
  idle_timeout = 180000;
  revoked_at = none;
  user_agent = none;
  remote_address = none;
}

pub unequal : (a b : Text) → (a == b) ≡ false → a ≢ b
unequal a b n e = ground (arith, eq_iff a b)

-- One application, with a client for its users and one for a service.
abbrev pub shop : Application
shop = record {
  id = bytes "shop";
  owner = bytes "acme";
  identifier = bytes "shop";
  display_name = bytes "Shop";
  environment = development;
  status = Applications.active;
  created_at = 1;
  updated_at = 1;
}

abbrev pub applications : ApplicationRepository
applications = record { applications = (bytes "shop", shop) ∷ []; identifiers = [] }

abbrev pub app : Client
app = record {
  id = bytes "app";
  application_id = bytes "shop";
  display_name = bytes "App";
  kind = web;
  status = Model.active;
  redirect_uris = bytes "https://shop/cb" ∷ [];
  scopes = bytes "read" ∷ bytes "write" ∷ [];
  secret_digest = some (bytes "s");
  created_at = 1;
  updated_at = 1;
}

abbrev pub robot : Client
robot = record app { id = bytes "robot"; kind = service; redirect_uris = [] }

abbrev pub clients : ClientRepository
clients = (bytes "app", app) ∷ (bytes "robot", robot) ∷ []
