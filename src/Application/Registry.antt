-- ===== src/Application/Registry.antt =====
-- src/application/service.cpp: the registry over the repository. The state is the repository;
-- randomness and the clock are arguments.
use openproof.Base.{Option, none, some, Text}
use openproof.Foundation.{Result, ok, fail, Status, Instant, not_found}
use openproof.Foundation.Exec.{Exec, pure, lift, ◌>>=◌, ◌>>◌}
use openproof.Application.Model.{Application, Environment, create}
use openproof.Application.Model as Model
use openproof.Application.Repository.{ApplicationRepository, add, save, find_by_id}

unfoldable pub register_application :
    Result Text
    → Text
    → Text
    → Text
    → Environment
    → Instant
    → Exec ApplicationRepository Application
register_application id owner identifier display_name environment now = do
  fresh ← lift id
  application ← lift (create fresh owner identifier display_name environment now)
  (λ r. add r application)
  pure application

required : Result (Option Application) → Result Application
required (fail e) = fail e
required (ok none) = fail not_found
required (ok (some a)) = ok a

unfoldable pub require : Text → Exec ApplicationRepository Application
unfolding required
require id r = (r, required (find_by_id r id))

-- A change of one application that is stored when it succeeds.
changed : (Application → Application × Status) → Text → Exec ApplicationRepository Application
changed f id = do
  application ← require id
  lift ((f application).1)
  (λ r. save r (f application).0)
  pure ((f application).0)

unfoldable pub suspend : Text → Instant → Exec ApplicationRepository Application
unfolding changed
suspend id now = changed (λ a. Model.suspend a now) id

unfoldable pub activate : Text → Instant → Exec ApplicationRepository Application
unfolding changed
activate id now = changed (λ a. Model.activate a now) id

unfoldable pub revoke : Text → Instant → Exec ApplicationRepository Application
unfolding changed
revoke id now = changed (λ a. Model.revoke a now) id
