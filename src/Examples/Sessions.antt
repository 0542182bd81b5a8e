-- ===== src/Examples/Sessions.antt =====
-- Runs of the sessions.
use openproof.Base.{
  insert, erase, text_key, ◌≡◌, ◌≢◌, refl, some, List, [], ◌∷◌, bytes, lookup, arith,
}
use openproof.Foundation.{ok, fail, authentication_failed}
use openproof.Session.Model.{
  Session, active, revoked, is_active, create, restore, use_session, rotate_token,
}
use openproof.Session.Model as Model
use openproof.Session.Store.{empty, add, use_token, rotate, revoke}
use openproof.Session.Store.Consistency.{Agrees}
use openproof.Session.Store.Reference.{reference_outcomes}
use openproof.Session.Store.Refinement.{outcomes, outcomes-reference}
use openproof.Session.Store.Calls.{Call, adds, uses, rotates, run, step, run-empty-Agrees}
use openproof.Session.Store.Revocation.{use_token-run-revoke}
use openproof.Session.Store.Rotation.{use_token-rotate}
use openproof.Security.{constant_time_equals}
use openproof.Examples.{example_crypto, session_of}

abbrev s1 : Session
s1 = session_of (bytes "s1") (bytes "t1")

abbrev s2 : Session
s2 = session_of (bytes "s2") (bytes "t2")

abbrev history : List Call
history =
    adds s1
    ∷ adds s2
    ∷ uses (bytes "t1") 2000
    ∷ rotates (bytes "s2") (bytes "t2") (bytes "t3") 3000
    ∷ []

run-empty-Agrees_example : Agrees (run empty history)
run-empty-Agrees_example = run-empty-Agrees history

found : lookup (bytes "s1") (run empty history).sessions ≡ some (record s1 { last_seen_at = 2000 })
unfolding run step empty add use_token use_session rotate rotate_token insert erase
    constant_time_equals
found = refl

use_token-rotate_example :
    ((use_token
        (rotate (run empty history) (bytes "s1") (bytes "t1") (bytes "t9") 5000).0
        (bytes "t1")
        6000).1
      ≡ fail authentication_failed)
    × ((use_token
          (rotate (run empty history) (bytes "s1") (bytes "t1") (bytes "t9") 5000).0
          (bytes "t9")
          6000).1
        ≡ ok (record s1 { last_seen_at = 6000; token_digest = bytes "t9" }))
unfolding run step empty add use_token use_session rotate rotate_token insert erase
    constant_time_equals
use_token-rotate_example =
    use_token-rotate (run empty history) (bytes "s1") (bytes "t1") (bytes "t9") 5000 6000
      (record s1 { last_seen_at = 2000 }) (run-empty-Agrees history) found refl (omega arith)
      (omega arith)

-- The revoked session stays out of use while another is rotated and used.
use_token-run-revoke_example : (bytes "s2") ≢ (bytes "s1")
unfolding run step empty add use_token use_session rotate rotate_token insert erase
    constant_time_equals revoke Model.revoke
use_token-run-revoke_example =
    use_token-run-revoke (run empty history) (bytes "s1") 5000
      (uses (bytes "t1") 5500 ∷ uses (bytes "t3") 5600 ∷ []) (bytes "t3") 6000
      {s = record s2 { last_seen_at = 6000; token_digest = bytes "t3" }} (run-empty-Agrees history)
      refl (tt, (tt, tt)) refl

outcomes-reference_example : outcomes empty history ≡ reference_outcomes [] history
outcomes-reference_example = outcomes-reference history
