-- ===== src/Oauth/Store/Once.antt =====
-- src/oauth/repository.cpp: histories of calls of the store.
use openproof.Base.{
  ◌≡◌, refl, Bool, true, false, none, some, List, [], ◌∷◌, Text, text_key, ◌!=◌, eq_iff, eq_refl,
  arith, lookup, lookup-insert, lookup-erase, all_of,
}
use openproof.Foundation.{ok, fail, Instant, authentication_failed}
use openproof.Oauth.Model.{AuthorizationCode, expired_at}
use openproof.Oauth.Store.{AuthorizationCodeStore, digest_key, add, consume_bound}

pub data Call : Type 0 where
  adds : AuthorizationCode → Call
  consumes :
      (digest : Text) (now : Instant)
      (expected_client_id expected_redirect_uri expected_code_challenge : Text)
      → Call

unfoldable pub step : AuthorizationCodeStore → Call → AuthorizationCodeStore
step r (adds c) = (add r c).0
step r (consumes digest now client_id redirect_uri code_challenge) =
    (consume_bound r digest now client_id redirect_uri code_challenge).0

unfoldable pub run : AuthorizationCodeStore → List Call → AuthorizationCodeStore
run r [] = r
run r (c ∷ calls) = run (step r c) calls

-- The call stores no code under the key.
unfoldable pub spares : Text → Call → Bool
spares key (adds c) = digest_key c.digest != key
spares key (consumes digest now client_id redirect_uri code_challenge) = true

step-spares :
    (key : Text) (r : AuthorizationCodeStore) (c : Call)
    → spares key c ≡ true
    → lookup key r ≡ none
    → lookup key (step r c) ≡ none
unfolding step spares add consume_bound
step-spares key r (adds c) s h = ground (arith, lookup-insert (digest_key c.digest) key c r)
step-spares key r (consumes digest now client_id redirect_uri code_challenge) s h =
    ground (arith, lookup-erase (digest_key digest) key r)

run-spares :
    (key : Text) (r : AuthorizationCodeStore) (calls : List Call)
    → all_of (spares key) calls ≡ true
    → lookup key r ≡ none
    → lookup key (run r calls) ≡ none
unfolding run all_of
run-spares key r [] s h = h
run-spares key r (c ∷ calls) s h =
    run-spares key (step r c) calls (ground arith) (step-spares key r c (ground arith) h)

-- What a success of `consume_bound` says: the code stood there, was bound as the caller asked, was
-- not expired, and is gone.
pub consume_bound_sound :
    (r : AuthorizationCodeStore) (digest : Text) (now : Instant)
    (client_id redirect_uri code_challenge : Text) {c : AuthorizationCode}
    → (consume_bound r digest now client_id redirect_uri code_challenge).1 ≡ ok c
    → (lookup (digest_key digest) r ≡ some c)
      × (c.client_id ≡ client_id)
      × (c.redirect_uri ≡ redirect_uri)
      × (c.code_challenge ≡ code_challenge)
      × (expired_at c now ≡ false)
      × (lookup
            (digest_key digest)
            (consume_bound r digest now client_id redirect_uri code_challenge).0
          ≡ none)
unfolding consume_bound
consume_bound_sound r digest now client_id redirect_uri code_challenge {c} h = (
  ground arith,
  ground (arith, eq_iff c.client_id client_id),
  ground (arith, eq_iff c.redirect_uri redirect_uri),
  ground (arith, eq_iff c.code_challenge code_challenge),
  ground arith,
  ground
      (arith, lookup-erase (digest_key digest) (digest_key digest) r, eq_refl (digest_key digest)),
)

-- A code that was consumed is not consumed again, whoever asks and whatever calls of the store are
-- between, as long as none of them adds a code of the same digest.
pub consume_bound-once :
    (r : AuthorizationCodeStore) (digest : Text) (now later : Instant)
    (client_id redirect_uri code_challenge client_id' redirect_uri' code_challenge' : Text)
    (calls : List Call) {c : AuthorizationCode}
    → (consume_bound r digest now client_id redirect_uri code_challenge).1 ≡ ok c
    → all_of (spares (digest_key digest)) calls ≡ true
    → (consume_bound
        (run (consume_bound r digest now client_id redirect_uri code_challenge).0 calls)
        digest
        later
        client_id'
        redirect_uri'
        code_challenge').1
      ≡ fail authentication_failed
unfolding consume_bound
consume_bound-once r digest now later client_id redirect_uri code_challenge client_id' redirect_uri'
      code_challenge' calls {c} h s =
    let gone =
      run-spares (digest_key digest)
        (consume_bound r digest now client_id redirect_uri code_challenge).0 calls s
        (consume_bound_sound r digest now client_id redirect_uri code_challenge {c = c} h).5 in
    rw gone refl
