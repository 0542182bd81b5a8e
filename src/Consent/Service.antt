-- ===== src/Consent/Service.antt =====
-- src/consent/service.cpp: the service over the repository. The state is the repository; randomness
-- and the clock are arguments.
use openproof.Base.{◌+◌, Bool, false, Option, none, some, ◌++◌, Text, bytes, List, eqb}
use openproof.Foundation.{Result, ok, Instant, Duration, ◌>>=◌, refuse_if, invalid_argument}
use openproof.Foundation.Exec.{Exec, pure, lift}
use openproof.Foundation.Exec as Steps
use openproof.Consent.Model.{ConsentGrant, create, active_at}
use openproof.Consent.Model as Model
use openproof.Consent.Repository.{ConsentRepository, save, find_active}
use openproof.Consent.Repository as Repository

found_covers : List Text → Option ConsentGrant → Bool
found_covers scopes none = false
found_covers scopes (some g) = Model.covers g scopes

unfoldable pub covers :
    ConsentRepository
    → (identity client audience : Text) (scopes : List Text) → Instant
    → Result Bool
unfolding found_covers
covers r identity client audience scopes now =
    find_active r identity client audience now >>= λ found. ok (found_covers scopes found)

-- A lifetime that is there and not positive.
wrong_lifetime : Option Duration → Bool
wrong_lifetime none = false
wrong_lifetime (some lifetime) = eqb lifetime 0

unfoldable pub expiry : Instant → Option Duration → Option Instant
expiry now none = none
expiry now (some lifetime) = some (now + lifetime)

unfoldable pub grant :
    (identity client audience : Text) (scopes : List Text) (lifetime : Option Duration)
    (random : Result Text) (now : Instant)
    → Exec ConsentRepository ConsentGrant
unfolding wrong_lifetime expiry
grant identity client audience scopes lifetime random now =
    Steps.◌>>◌ (lift (refuse_if (wrong_lifetime lifetime) invalid_argument)) (
      Steps.◌>>=◌ (lift random) (λ fresh.
        Steps.◌>>=◌
          (lift (
            create (bytes "opcns_" ++ fresh) identity client audience scopes now
              (expiry now lifetime)))
          (λ g. Steps.◌>>◌ (λ r. save r g) (pure g))))

unfoldable pub active : ConsentGrant → Instant → Bool
active g now = active_at g now

unfoldable pub revoke : (id identity : Text) → Instant → Exec ConsentRepository (Unit {0})
revoke id identity now r = Repository.revoke r id identity now

unfoldable pub list : ConsentRepository → Text → Result (List ConsentGrant)
list r identity = Repository.list r identity
