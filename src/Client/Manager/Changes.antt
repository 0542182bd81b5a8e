-- ===== src/Client/Manager/Changes.antt =====
-- src/client/service.cpp: what the calls of the client manager do to the clients.
use openproof.Base.{
  ◌≡◌, refl, false, not, ◌||◌, none, some, List, ◌++◌, Text, text_key, ◌==◌, ◌!=◌, bytes, eq_iff,
  arith, inl, inr, lookup, insert, lookup-insert, Option-cases, subst, sym, Bool-cases,
}
use openproof.Foundation.{
  refuse_if, failed_precondition, Result, ok, fail, Status, Instant, Result-cases,
}
use openproof.Foundation.Exec.{Exec, pure, lift, ◌>>=◌, ◌>>◌}
use openproof.Security.{Crypto}
use openproof.Application.Repository.{ApplicationRepository}
use openproof.Client.Model.{
  Client, ClientKind, create_scope, create_redirect_uri, client_is_public, is_public, is_revoked,
  permits_authorization, client_permits_authorization, create, replace_secret,
}
use openproof.Client.Model as Model
use openproof.Client.Repository.{ClientRepository, add, save, same_kind, find_by_id}
use openproof.Client.Manager.{
  ClientRegistration, changed, first, second, application_permits, parse_each, new_secret, require,
  digest, register_client, rotate_secret,
}

-- Every client is stored under its identifier.
unfoldable pub IsKeyed : ClientRepository → Type 0
IsKeyed r = (k : Text) (c : Client) → lookup k r ≡ some c → c.id ≡ k

pub insert-IsKeyed : (r : ClientRepository) (c : Client) → IsKeyed r → IsKeyed (insert c.id c r)
unfolding IsKeyed
insert-IsKeyed r c w k c' h = elim (Bool-cases (c.id == k)) [
  | inl p ↦ ground (arith, eq_iff c.id k, lookup-insert c.id k c r)
  | inr p ↦ w k c' (ground (arith, lookup-insert c.id k c r))
]

-- What a call may do to the clients: nothing, a new client, or a client that is written over one
-- which was not revoked.
pub data IsChange (r : ClientRepository) : ClientRepository → Type 0 where
  same : IsChange r r
  new : (c : Client) → lookup c.id r ≡ none → IsChange r (insert c.id c r)
  written :
      (old c : Client)
      → lookup c.id r ≡ some old
      → is_revoked old.status ≡ false
      → IsChange r (insert c.id c r)

pub change-IsKeyed : (r r' : ClientRepository) → IsChange r r' → IsKeyed r → IsKeyed r'
change-IsKeyed r _ same w = w
change-IsKeyed r _ (new c h) w = insert-IsKeyed r c w
change-IsKeyed r _ (written old c h n) w = insert-IsKeyed r c w

add-change : (r : ClientRepository) (c : Client) → IsChange r (add r c).0
unfolding add
add-change r c = elim (Option-cases (lookup c.id r)) [
  | inl e ↦ rw e (new c e)
  | inr (old, e) ↦ rw e same
]

-- A saved client stands over the one that was found under the same identifier.
save-change :
    (r : ClientRepository) (old c : Client)
    → lookup c.id r ≡ some old
    → is_revoked old.status ≡ false
    → IsChange r (save r c).0
unfolding save
save-change r old c e n =
    elim (Bool-cases
      ((old.application_id != c.application_id) || not (same_kind old.kind c.kind))) [
        | inl p ↦ rw (e, p) same
        | inr p ↦ rw (e, p) (written old c e n)
      ]

-- A change of one client that keeps its identifier, and refuses a revoked client.
pub KeepsRevoked : (Client → Client × Status) → Type 0
KeepsRevoked f =
    (c : Client) → ((f c).0.id ≡ c.id) × ((f c).1 ≡ ok tt → is_revoked c.status ≡ false)

pub suspend_keeps : (now : Instant) → KeepsRevoked (λ c. Model.suspend c now)
unfolding KeepsRevoked Model.suspend
suspend_keeps now c = (ground arith, λ h. ground arith)

pub activate_keeps : (now : Instant) → KeepsRevoked (λ c. Model.activate c now)
unfolding KeepsRevoked Model.activate
activate_keeps now c = (ground arith, λ h. ground arith)

pub revoke_keeps : (now : Instant) → KeepsRevoked (λ c. Model.revoke c now)
unfolding KeepsRevoked Model.revoke
revoke_keeps now c = (ground arith, λ h. ground arith)

replace_keeps : (digest : Text) (now : Instant) → KeepsRevoked (λ c. replace_secret c digest now)
unfolding KeepsRevoked replace_secret
replace_keeps digest now c = (ground arith, λ h. ground arith)

then_pure-state :
    {A B : Type 0} (m : Exec ClientRepository A) (b : B) (r : ClientRepository)
    → ((m >> pure b) r).0 ≡ (m r).0
then_pure-state m b r = elim (Result-cases (m r).1) [
  | inl (a, e) ↦ rw e refl
  | inr (e, p) ↦ rw p refl
]

-- The call that finds a client, changes it, stores it and returns something.
store-change :
    {B : Type 0} (f : Client → Client × Status) (b : B) (c : Client) (r : ClientRepository)
    → KeepsRevoked f
    → IsKeyed r
    → lookup c.id r ≡ some c
    → IsChange r ((lift ((f c).1) >> ((λ r'. save r' (f c).0) >> pure b)) r).0
unfolding KeepsRevoked
store-change f b c r keeps w e = elim (Result-cases (f c).1) [
  | inr (x, p) ↦ rw p same
  | inl (u, p) ↦
      let change : IsChange r (save r (f c).0).0 =
        save-change r c (f c).0 (rw ((keeps c).0) e) ((keeps c).1 p) in
      rw p (subst (IsChange r) (sym (then_pure-state (λ r'. save r' (f c).0) b r)) change)
]

pub changed-change :
    (f : Client → Client × Status) (id : Text) (r : ClientRepository)
    → KeepsRevoked f
    → IsKeyed r
    → IsChange r (changed f id r).0
unfolding changed require find_by_id IsKeyed
changed-change f id r keeps w = elim (Option-cases (lookup id r)) [
  | inl e ↦ rw e same
  | inr (c, e) ↦ rw e (store-change f ((f c).0) c r keeps w (cc (w id c e, e)))
]

-- A value that is only computed changes nothing.
lift-change :
    {A B : Type 0} (x : Result A) (k : A → Exec ClientRepository B) (r : ClientRepository)
    → ((a : A) → IsChange r (k a r).0)
    → IsChange r ((lift x >>= k) r).0
lift-change (ok a) k r h = h a
lift-change (fail e) k r h = same

pub rotate_secret-change :
    ⦃crypto : Crypto⦄ (key id : Text) (generated : Result Text) (now : Instant)
    (r : ClientRepository)
    → IsKeyed r
    → IsChange r (rotate_secret key id generated now r).0
unfolding rotate_secret require find_by_id IsKeyed
rotate_secret-change key id generated now r w = elim (Option-cases (lookup id r)) [
  | inl e ↦ rw e same
  | inr (c, e) ↦ rw e (
      lift-change (refuse_if (is_public c) failed_precondition) _ r (λ u.
        lift-change generated _ r (λ raw. lift-change (digest key (bytes "ops_" ++ raw)) _ r (λ d.
          store-change (λ c'. replace_secret c' d now) (bytes "ops_" ++ raw) c r
            (replace_keeps d now) w (cc (w id c e, e))))))
]

pub register_client-change :
    ⦃crypto : Crypto⦄ (key : Text) (applications : ApplicationRepository)
    (application_id display_name : Text) (kind : ClientKind) (redirect_uris scopes : List Text)
    (random_id generated : Result Text) (now : Instant) (r : ClientRepository)
    → IsChange r
        (register_client key applications application_id display_name kind redirect_uris scopes
          random_id generated now r).0
unfolding register_client
register_client-change key applications application_id display_name kind redirect_uris scopes
      random_id generated now r =
    lift-change
      (refuse_if (not (application_permits applications application_id)) failed_precondition) _ r
      (λ u.
        lift-change (parse_each (λ x. create_redirect_uri x kind) redirect_uris) _ r (λ redirects.
          lift-change (parse_each create_scope scopes) _ r (λ parsed.
            lift-change random_id _ r (λ fresh.
              lift-change (new_secret key (client_is_public kind) generated) _ r (λ secret.
                lift-change {B = ClientRegistration}
                  (create (bytes "opc_" ++ fresh) application_id display_name kind redirects parsed
                    (second key secret) now)
                  _ r
                  (λ client.
                    subst (IsChange r)
                      (sym (
                        then_pure-state (λ r'. add r' client)
                          (record { client = client; secret = first key secret }) r))
                      (add-change r client)))))))
