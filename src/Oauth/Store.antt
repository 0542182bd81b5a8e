-- ===== src/Oauth/Store.antt =====
-- src/oauth/repository.cpp: the authorization codes by the hexadecimal text of their digest. The lock
-- makes each method one step.
pub mod Once
use openproof.Base.{
  Bool, true, false, ◌||◌, Option, none, some, List, [], Text, text_key, ◌==◌, ◌!=◌, Map, lookup,
  contains_key, insert, erase, if◌then◌else◌,
}
use openproof.Foundation.{Result, ok, fail, Status, Instant, already_exists, authentication_failed}
use openproof.Foundation.Encoding.{to_hex}
use openproof.Oauth.Model.{AuthorizationCode, expired_at}

abbrev pub AuthorizationCodeStore : Type 0
AuthorizationCodeStore = Map Text AuthorizationCode

unfoldable pub digest_key : Text → Text
digest_key digest = to_hex digest

unfoldable pub add : AuthorizationCodeStore → AuthorizationCode → AuthorizationCodeStore × Status
add r c =
    if contains_key (digest_key c.digest) r
    then (r, fail already_exists)
    else (insert (digest_key c.digest) c r, ok tt)

consume_found :
    AuthorizationCodeStore
    → (key : Text) → Instant
    → (expected_client_id expected_redirect_uri expected_code_challenge : Text)
    → Option AuthorizationCode
    → AuthorizationCodeStore × Result AuthorizationCode
consume_found r key now client_id redirect_uri code_challenge none = (r, fail authentication_failed)
consume_found r key now client_id redirect_uri code_challenge (some c) =
    if expired_at c now
    then (erase key r, fail authentication_failed)
    else if (c.client_id != client_id)
        || (c.redirect_uri != redirect_uri)
        || (c.code_challenge != code_challenge)
    then (r, fail authentication_failed)
    else (erase key r, ok c)

unfoldable pub consume_bound :
    AuthorizationCodeStore
    → (digest : Text) → Instant
    → (expected_client_id expected_redirect_uri expected_code_challenge : Text)
    → AuthorizationCodeStore × Result AuthorizationCode
unfolding consume_found
consume_bound r digest now client_id redirect_uri code_challenge =
    consume_found r (digest_key digest) now client_id redirect_uri code_challenge
      (lookup (digest_key digest) r)
