-- ===== src/Examples/Services.antt =====
-- Runs of the session service, of its primitives and of the encoding.
use openproof.Base.{insert, erase, ◌≡◌, refl, some, [], ◌∷◌, text_key, bytes, arith}
use openproof.Foundation.{ok}
use openproof.Security.{constant_time_equals, hmac_sha256}
use openproof.Identity.Assurance.{ial2}
use openproof.Session.Model.{Session, create, use_session}
use openproof.Session.Model as Model
use openproof.Session.Store.{SessionRepository, empty, add, use_token}
use openproof.Session.Store as Store
use openproof.Session.Store.Calls.{adds, step, run, run-empty-Agrees}
use openproof.Session.Store.Consistency.{empty-Agrees}
use openproof.Session.Store.Revocation.{IsDead}
use openproof.Session.Service.{
  SessionService, VerifiedAuthentication, ClientContext, digest, new_session, issue, authenticate,
  issue_replacing,
}
use openproof.Session.Service.Issuing.{authenticate-issue}
use openproof.Session.Service.Replacing.{issue_replacing-IsDead}
use openproof.Examples.{example_crypto, session_of, strong, fill}

abbrev service : SessionService
service = record {
  key = bytes "key";
  policy = record { absolute_lifetime = 600000; idle_timeout = 180000 };
}

abbrev sign_in : VerifiedAuthentication
sign_in = record {
  identity = bytes "ada";
  provider = bytes "passkey";
  claimed_assurance = ial2;
  strength = strong;
  verified_at = 1000;
}

abbrev browser : ClientContext
browser = record { user_agent = []; remote_address = [] }

authenticate-issue_example :
    (s : Session) × ((authenticate service
        (bytes "t1")
        2000
        (issue service sign_in browser (ok (bytes "s1")) (ok (bytes "t1")) 1000 empty).0).1
      ≡ ok s)
    × (s.identity ≡ bytes "ada")
    × (s.id ≡ bytes "s1")
unfolding issue digest hmac_sha256 new_session create add empty
authenticate-issue_example =
    authenticate-issue service sign_in browser (bytes "s1") (bytes "t1") 1000 2000 empty
      {grant = record { id = bytes "s1"; token = bytes "t1" }} empty-Agrees refl (omega arith)
      (omega arith)

abbrev signed_in : SessionRepository
signed_in = run empty (adds (session_of (bytes "s1") (fill 32 (bytes "t1"))) ∷ [])

issue_replacing-IsDead_example :
    IsDead
      (bytes "s1")
      (issue_replacing service sign_in browser
        (some (bytes "t1"))
        (ok (bytes "s2"))
        (ok (bytes "t2"))
        2000
        2001
        2002
        2003
        signed_in).0
unfolding run step issue_replacing issue authenticate digest hmac_sha256 new_session create add
    empty use_token use_session insert erase constant_time_equals Store.revoke Model.revoke
issue_replacing-IsDead_example =
    issue_replacing-IsDead service sign_in browser (bytes "t1") (ok (bytes "s2")) (ok (bytes "t2"))
      2000 2001 2002 2003 signed_in
      (record (session_of (bytes "s1") (fill 32 (bytes "t1"))) { last_seen_at = 2000 })
      {grant = record { id = bytes "s2"; token = bytes "t2" }}
      (run-empty-Agrees (adds (session_of (bytes "s1") (fill 32 (bytes "t1"))) ∷ [])) refl refl
