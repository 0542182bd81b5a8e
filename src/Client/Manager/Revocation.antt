-- ===== src/Client/Manager/Revocation.antt =====
-- src/client/service.cpp: histories of calls of the client manager.
use openproof.Base.{
  ◌≡◌, Bool, true, false, Option, none, some, List, [], ◌∷◌, Text, text_key, eq_iff, eq_refl, arith,
  inl, inr, lookup, lookup-insert, Option-cases,
}
use openproof.Foundation.{Result, ok, fail, Instant, authentication_failed}
use openproof.Security.{Crypto}
use openproof.Application.Repository.{ApplicationRepository}
use openproof.Client.Model.{
  Client, ClientKind, create_scope, create_redirect_uri, client_is_public, is_public, is_revoked,
  permits_authorization, client_permits_authorization, create, replace_secret,
}
use openproof.Client.Model as Model
use openproof.Client.Repository.{ClientRepository, save, find_by_id}
use openproof.Client.Manager.{
  changed, require, require_active, suspend, activate, revoke, register_client, rotate_secret,
  authenticate,
}
use openproof.Client.Manager.Changes.{
  IsKeyed, IsChange, same, new, written, change-IsKeyed, changed-change, rotate_secret-change,
  register_client-change, suspend_keeps, activate_keeps, revoke_keeps,
}

-- A call of the manager; the applications may be others at each registration.
pub data Call : Type 0 where
  registers :
      ApplicationRepository
      → (application_id display_name : Text) → ClientKind
      → (redirect_uris scopes : List Text) → (random_id generated : Result Text) → Instant
      → Call
  suspends activates revokes : (id : Text) → Instant → Call
  rotates : (id : Text) → (generated : Result Text) → Instant → Call

-- The client is there and revoked.
is_gone : Option Client → Bool
is_gone none = false
is_gone (some c) = is_revoked c.status

change-gone :
    (id : Text) (r r' : ClientRepository)
    → IsChange r r'
    → is_gone (lookup id r) ≡ true
    → is_gone (lookup id r') ≡ true
unfolding is_gone
change-gone id r _ same g = g
change-gone id r _ (new c h) g = ground (arith, eq_iff c.id id, lookup-insert c.id id c r)
change-gone id r _ (written old c h n) g = ground (arith, eq_iff c.id id, lookup-insert c.id id c r)

module _ ⦃crypto : Crypto⦄ (key : Text) where
  unfoldable pub step : ClientRepository → Call → ClientRepository
  step r
        (registers applications application_id display_name kind redirect_uris scopes random_id
          generated now) =
      (register_client key applications application_id display_name kind redirect_uris scopes
        random_id generated now r).0
  step r (suspends id now) = (suspend id now r).0
  step r (activates id now) = (activate id now r).0
  step r (revokes id now) = (revoke id now r).0
  step r (rotates id generated now) = (rotate_secret key id generated now r).0

  unfoldable pub run : ClientRepository → List Call → ClientRepository
  run r [] = r
  run r (c ∷ calls) = run (step r c) calls

  step-change : (r : ClientRepository) (c : Call) → IsKeyed r → IsChange r (step r c)
  unfolding step suspend activate revoke
  step-change r
        (registers applications application_id display_name kind redirect_uris scopes random_id
          generated now)
        w =
      register_client-change key applications application_id display_name kind redirect_uris scopes
        random_id generated now r
  step-change r (suspends id now) w =
      changed-change (λ c. Model.suspend c now) id r (suspend_keeps now) w
  step-change r (activates id now) w =
      changed-change (λ c. Model.activate c now) id r (activate_keeps now) w
  step-change r (revokes id now) w =
      changed-change (λ c. Model.revoke c now) id r (revoke_keeps now) w
  step-change r (rotates id generated now) w = rotate_secret-change key id generated now r w

  run-IsKeyed : (r : ClientRepository) (calls : List Call) → IsKeyed r → IsKeyed (run r calls)
  unfolding run
  run-IsKeyed r [] w = w
  run-IsKeyed r (c ∷ calls) w =
      run-IsKeyed (step r c) calls (change-IsKeyed r (step r c) (step-change r c w) w)

  run-gone :
      (id : Text) (r : ClientRepository) (calls : List Call)
      → IsKeyed r
      → is_gone (lookup id r) ≡ true
      → is_gone (lookup id (run r calls)) ≡ true
  unfolding run
  run-gone id r [] w g = g
  run-gone id r (c ∷ calls) w g =
      let change = step-change r c w in
      run-gone id (step r c) calls (change-IsKeyed r (step r c) change w)
        (change-gone id r (step r c) change g)

  empty-IsKeyed : IsKeyed []
  unfolding IsKeyed
  empty-IsKeyed k c h = absurd (ground arith)

  revoke-gone :
      (id : Text) (now : Instant) (r : ClientRepository) {c : Client}
      → IsKeyed r
      → (revoke id now r).1 ≡ ok c
      → is_gone (lookup id (revoke id now r).0) ≡ true
  unfolding revoke changed require find_by_id save Model.revoke IsKeyed is_gone
  revoke-gone id now r {c} w h = elim (Option-cases (lookup id r)) [
    | inl e ↦ absurd (ground arith)
    | inr (d, e) ↦
        ground (arith, w id d e, eq_refl id, lookup-insert id id (Model.revoke d now).0 r)
  ]

  authenticate-gone :
      (applications : ApplicationRepository) (id : Text) (r : ClientRepository)
      (presented : Option Text)
      → is_gone (lookup id r) ≡ true
      → authenticate key applications r id presented ≡ fail authentication_failed
  unfolding authenticate require_active find_by_id is_gone permits_authorization
      client_permits_authorization
  authenticate-gone applications id r presented g = ground arith

  -- A client that was revoked never authenticates again, with no secret and with any, whatever calls
  -- of the manager came before the revocation, and whatever calls come after it.
  pub authenticate-revoke :
      (before after : List Call) (applications : ApplicationRepository) (id : Text) (now : Instant)
      (presented : Option Text) {c : Client}
      → (revoke id now (run [] before)).1 ≡ ok c
      → authenticate key applications (run (revoke id now (run [] before)).0 after) id presented
        ≡ fail authentication_failed
  unfolding revoke
  authenticate-revoke before after applications id now presented {c} h =
      let keyed = run-IsKeyed [] before empty-IsKeyed in
      let change =
        changed-change (λ d. Model.revoke d now) id (run [] before) (revoke_keeps now) keyed in
      authenticate-gone applications id (run (revoke id now (run [] before)).0 after) presented (
        run-gone id (revoke id now (run [] before)).0 after
          (change-IsKeyed (run [] before) (revoke id now (run [] before)).0 change keyed)
          (revoke-gone id now (run [] before) {c = c} keyed h))
