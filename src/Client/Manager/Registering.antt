-- ===== src/Client/Manager/Registering.antt =====
-- src/client/service.cpp: a client that was registered.
use openproof.Base.{
  ◌≡◌, refl, true, Option, none, some, List, ◌++◌, Text, text_key, bytes, eq_refl, arith, inl, inr,
  insert, lookup-insert, sort_by,
}
use openproof.Foundation.{Result, ok, fail, Instant, Result-cases}
use openproof.Security.{Crypto, constant_time_equals_iff}
use openproof.Application.Repository.{ApplicationRepository}
use openproof.Client.Model.{
  Client, ClientKind, active, client_is_public, is_public, permits_authorization,
  client_permits_authorization, create, create_redirect_uri, create_scope,
}
use openproof.Client.Repository.{ClientRepository, add, find_by_id}
use openproof.Client.Manager.{
  ClientRegistration, first, second, new_secret, application_permits, parse_each, require_active,
  register_client, authenticate,
}

pub create-fields :
    (id application_id display_name : Text) (kind : ClientKind) (redirect_uris scopes : List Text)
    (secret_digest : Option Text) (now : Instant) {c : Client}
    → create id application_id display_name kind redirect_uris scopes secret_digest now ≡ ok c
    → (c.id ≡ id)
      × (c.application_id ≡ application_id)
      × (c.kind ≡ kind)
      × (c.status ≡ active)
      × (c.secret_digest ≡ secret_digest)
      × (c.redirect_uris ≡ sort_by (λ r. r) redirect_uris)
unfolding create
create-fields id application_id display_name kind redirect_uris scopes secret_digest now {c} h =
    (ground arith, ground arith, ground arith, ground arith, ground arith, ground arith)

module _ ⦃crypto : Crypto⦄ (key : Text) where
  -- What a registration that succeeds has made and stored.
  pub register_client_sound :
      (applications : ApplicationRepository) (application_id display_name : Text)
      (kind : ClientKind) (redirect_uris scopes : List Text) (random_id generated : Result Text)
      (now : Instant) (r : ClientRepository) {registration : ClientRegistration}
      → (register_client key applications application_id display_name kind redirect_uris scopes
          random_id generated now r).1
        ≡ ok registration
      → (application_permits applications application_id ≡ true)
        × ((id : Text) × (redirects : List Text) × (parsed : List Text) × (secret : Option
              (Text × Text))
            × (parse_each (λ u. create_redirect_uri u kind) redirect_uris ≡ ok redirects)
            × (new_secret key (client_is_public kind) generated ≡ ok secret)
            × (create id application_id display_name kind redirects parsed (second key secret) now
                ≡ ok registration.client)
            × (registration.secret ≡ first key secret)
            × ((register_client key applications application_id display_name kind redirect_uris
                  scopes random_id generated now r).0
                ≡ insert registration.client.id registration.client r))
  unfolding register_client add
  register_client_sound applications application_id display_name kind redirect_uris scopes (fail e)
        generated now r {registration} h =
      absurd (ground arith)
  register_client_sound applications application_id display_name kind redirect_uris scopes
        (ok fresh) generated now r {registration} h =
      elim (Result-cases (parse_each (λ u. create_redirect_uri u kind) redirect_uris)) [
        | inr (e, p) ↦ absurd (ground arith)
        | inl (redirects, p) ↦ elim (Result-cases (parse_each create_scope scopes)) [
          | inr (e, q) ↦ absurd (ground arith)
          | inl (parsed, q) ↦
              elim (Result-cases (new_secret key (client_is_public kind) generated)) [
                | inr (e, s) ↦ absurd (ground arith)
                | inl (secret, s) ↦ (
                  ground arith,
                  (
                    bytes "opc_" ++ fresh,
                    redirects,
                    parsed,
                    secret,
                    p,
                    s,
                    ground arith,
                    ground arith,
                    ground arith,
                  ),
                )
              ]
        ]
      ]

  authenticate-stored :
      (applications : ApplicationRepository) (r : ClientRepository) (c : Client)
      (generated : Result Text) (secret : Option (Text × Text))
      → application_permits applications c.application_id ≡ true
      → c.status ≡ active
      → new_secret key (client_is_public c.kind) generated ≡ ok secret
      → c.secret_digest ≡ second key secret
      → authenticate key applications (insert c.id c r) c.id (first key secret) ≡ ok c
  unfolding authenticate require_active find_by_id is_public permits_authorization
      client_permits_authorization new_secret first second
  authenticate-stored applications r c generated none permits live made stored =
      ground (arith, eq_refl c.id, lookup-insert c.id c.id c r)
  authenticate-stored applications r c generated (some (raw, d)) permits live made stored =
      ground
        (arith, eq_refl c.id, lookup-insert c.id c.id c r, (constant_time_equals_iff d d).1 refl)

  -- A client authenticates with what its registration returned: with its secret if it is confidential
  -- and with none if it is public.
  pub authenticate-register_client :
      (applications : ApplicationRepository) (application_id display_name : Text)
      (kind : ClientKind) (redirect_uris scopes : List Text) (random_id generated : Result Text)
      (now : Instant) (r : ClientRepository) {registration : ClientRegistration}
      → (register_client key applications application_id display_name kind redirect_uris scopes
          random_id generated now r).1
        ≡ ok registration
      → authenticate key applications
          (register_client key applications application_id display_name kind redirect_uris scopes
            random_id generated now r).0
          registration.client.id
          registration.secret
        ≡ ok registration.client
  authenticate-register_client applications application_id display_name kind redirect_uris scopes
        random_id generated now r {registration} h =
      let (permits, (id, redirects, parsed, secret, _, made, created, given, stored)) =
        register_client_sound applications application_id display_name kind redirect_uris scopes
          random_id generated now r {registration = registration} h in
      let (_, owner, kept, live, secret_digest, _) =
        create-fields id application_id display_name kind redirects parsed (second key secret) now
          {c = registration.client} created in
      rw (stored, given)
        (authenticate-stored applications r registration.client generated secret (rw owner permits)
          live (rw kept made) secret_digest)
