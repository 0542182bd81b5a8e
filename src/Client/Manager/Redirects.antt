-- ===== src/Client/Manager/Redirects.antt =====
-- src/client: the redirect URIs that a registered client is sent to.
use openproof.Base.{
  ◌≡◌, refl, Bool, true, ◌&&◌, ◌||◌, List, [], ◌∷◌, Text, text_key, ◌==◌, bytes, eq_iff, arith, inl,
  inr, Bool-cases, Member, sort-Member, any_of,
}
use openproof.Foundation.{Result, ok, Instant, Result-cases}
use openproof.Security.{Crypto}
use openproof.Application.Repository.{ApplicationRepository}
use openproof.Client.Uri.{valid_https, loopback_http}
use openproof.Client.Model.{ClientKind, native, is_native, create_redirect_uri}
use openproof.Client.Repository.{ClientRepository}
use openproof.Client.Manager.{ClientRegistration, second, parse_each, register_client}
use openproof.Base.{◌≢◌, ◌⊎◌, Option-cases, subst, sym}
use openproof.Client.Uri.Spelling.{
  IsHttpsUri, IsLoopbackUri, valid_https-IsHttpsUri, loopback_http-IsLoopbackUri,
}
use openproof.Client.Uri.{authority, parse_loopback_redirect, same_native_loopback_redirect}
use openproof.Client.Model.{permits_redirect}
use openproof.Client.Manager.Registering.{create-fields, register_client_sound}

any_of-Member :
    (p : Text → Bool) (xs : List Text)
    → any_of p xs ≡ true
    → (x : Text) × Member x xs × (p x ≡ true)
unfolding any_of
any_of-Member p [] h = absurd (ground arith)
any_of-Member p (x ∷ xs) h = elim (Bool-cases (p x)) [
  | inl e ↦ (x, inl refl, e)
  | inr e ↦ let (y, m, q) = any_of-Member p xs (ground arith) in (y, inr m, q)
]

-- A redirect URI of HTTPS, or for a native client one of the loopback address.
is_safe_redirect : ClientKind → Text → Bool
is_safe_redirect kind uri = valid_https uri || is_native kind && loopback_http uri

parse_each-ok :
    (parse : Text → Result Text) (v : Text) (vs : List Text) {rest : List Text}
    → parse_each parse (v ∷ vs) ≡ ok rest
    → (a : Text) × (more : List Text) × (parse v ≡ ok a)
      × (parse_each parse vs ≡ ok more)
      × (rest ≡ a ∷ more)
unfolding parse_each
parse_each-ok parse v vs {rest} h = elim (Result-cases (parse v)) [
  | inr (e, p) ↦ absurd (ground arith)
  | inl (a, p) ↦ elim (Result-cases (parse_each parse vs)) [
    | inr (e, q) ↦ absurd (ground arith)
    | inl (more, q) ↦ (a, more, p, q, ground arith)
  ]
]

parse_each-nil :
    (parse : Text → Result Text) (x : Text) (xs : List Text) → parse_each parse [] ≢ ok (x ∷ xs)
unfolding parse_each
parse_each-nil parse x xs h = ground arith

create_redirect_uri-safe :
    (kind : ClientKind) (v a : Text)
    → create_redirect_uri v kind ≡ ok a
    → is_safe_redirect kind a ≡ true
unfolding create_redirect_uri is_safe_redirect
create_redirect_uri-safe kind v a h = ground arith

parse_each-safe :
    (kind : ClientKind) (uris redirects : List Text) (u : Text)
    → parse_each (λ v. create_redirect_uri v kind) uris ≡ ok redirects
    → Member u redirects
    → is_safe_redirect kind u ≡ true
parse_each-safe kind [] [] u h m = elim m [ ]
parse_each-safe kind [] (x ∷ xs) u h m =
    absurd (parse_each-nil (λ v. create_redirect_uri v kind) x xs h)
parse_each-safe kind (v ∷ uris) redirects u h m =
    let (a, more, p, q, e) = parse_each-ok (λ w. create_redirect_uri w kind) v uris h in
    elim (subst (Member u) e m) [
      | inl same ↦ rw (sym same) (create_redirect_uri-safe kind v a p)
      | inr within ↦ parse_each-safe kind uris more u q within
    ]

-- Another port of the loopback address is one of it.
same_native_loopback_redirect-loopback :
    (registered presented : Text)
    → same_native_loopback_redirect registered presented ≡ true
    → loopback_http presented ≡ true
unfolding same_native_loopback_redirect parse_loopback_redirect loopback_http
same_native_loopback_redirect-loopback registered presented h =
    elim (Option-cases (parse_loopback_redirect registered)) [
      | inl e ↦ absurd (ground arith)
      | inr (x, e) ↦ elim (Option-cases (authority presented (bytes "http://"))) [
        | inl p ↦ absurd (ground arith)
        | inr (a, p) ↦ ground arith
      ]
    ]

is_safe_redirect-permitted :
    (kind : ClientKind) (item uri : Text)
    → is_safe_redirect kind item ≡ true
    → (item == uri) || is_native kind && same_native_loopback_redirect item uri ≡ true
    → is_safe_redirect kind uri ≡ true
unfolding is_safe_redirect
is_safe_redirect-permitted kind item uri h p = elim (Bool-cases (item == uri)) [
  | inl e ↦ rw (sym ((eq_iff item uri).0 e)) h
  | inr e ↦ ground (arith, same_native_loopback_redirect-loopback item uri)
]

is_safe_redirect_sound :
    (kind : ClientKind) (uri : Text)
    → is_safe_redirect kind uri ≡ true
    → IsHttpsUri uri ⊎ ((kind ≡ native) × IsLoopbackUri uri)
unfolding is_safe_redirect
is_safe_redirect_sound kind uri h = elim (Bool-cases (valid_https uri)) [
  | inl p ↦ inl (valid_https-IsHttpsUri uri p)
  | inr p ↦ inr (ground arith, loopback_http-IsLoopbackUri uri (ground arith))
]

module _ ⦃crypto : Crypto⦄ (key : Text) where
  -- A client that was registered is sent to a redirect URI only if that is spelled as one of HTTPS
  -- with a host, or, for a native client, as one of HTTP whose host is 127.0.0.1 or [::1], with a port
  -- from 1 to 65535. Either authority ends the URI or is followed by a path or a query, and names no
  -- user.
  pub permits_redirect-register_client :
      (applications : ApplicationRepository) (application_id display_name : Text)
      (kind : ClientKind) (redirect_uris scopes : List Text) (random_id generated : Result Text)
      (now : Instant) (r : ClientRepository) (uri : Text) {registration : ClientRegistration}
      → (register_client key applications application_id display_name kind redirect_uris scopes
          random_id generated now r).1
        ≡ ok registration
      → permits_redirect registration.client uri ≡ true
      → IsHttpsUri uri ⊎ ((kind ≡ native) × IsLoopbackUri uri)
  unfolding permits_redirect
  permits_redirect-register_client applications application_id display_name kind redirect_uris
        scopes random_id generated now r uri {registration} h p =
      let (_, (id, redirects, parsed, secret, all, _, created, _, _)) =
        register_client_sound key applications application_id display_name kind redirect_uris scopes
          random_id generated now r {registration = registration} h in
      let (_, _, kept, _, _, sorted) =
        create-fields id application_id display_name kind redirects parsed (second key secret) now
          {c = registration.client} created in
      let (item, m, q) =
        any_of-Member
          (λ x.
            (x == uri) || is_native registration.client.kind && same_native_loopback_redirect x uri)
          registration.client.redirect_uris p in
      let safe =
        parse_each-safe kind redirect_uris redirects item all
          (sort-Member (λ x. x) item redirects (subst (Member item) sorted m)) in
      is_safe_redirect_sound kind uri (
        is_safe_redirect-permitted kind item uri safe (
          subst (λ k. (item == uri) || is_native k && same_native_loopback_redirect item uri ≡ true)
            kept q))
