-- ===== src/Examples/Pushed.antt =====
-- Runs of pushed authorization requests.
use openproof.Base.{insert, ◌≡◌, refl, [], text_key, bytes, arith}
use openproof.Foundation.{ok, fail, authentication_failed}
use openproof.Foundation.Encoding.{to_hex, hex_digit}
use openproof.Security.{sha256}
use openproof.Oauth.Pushed.Store.{PushedStore, create, restore, add, key}
use openproof.Oauth.Pushed.Service.{PushedAuthorizationGrant, digest, push, find, consume}
use openproof.Oauth.Pushed.Single.{consume-push}
use openproof.Examples.{example_crypto}
use openproof.Examples.Codes.{request}

abbrev granted : PushedAuthorizationGrant
granted = record {
  request_uri = bytes "urn:ietf:params:oauth:request_uri:opar_r1";
  expires_in = 60;
}

abbrev pushed : PushedStore
pushed = (push 60 request (ok (bytes "r1")) 1000 []).0

consume-push_example :
    (find pushed granted.request_uri (bytes "app") 1030 ≡ ok request)
    × (consume granted.request_uri (bytes "web") 1030 pushed ≡ (pushed, fail authentication_failed))
    × ((consume granted.request_uri (bytes "app") 1030 pushed).1 ≡ ok request)
    × ((consume granted.request_uri
          (bytes "app")
          1031
          (consume granted.request_uri (bytes "app") 1030 pushed).0).1
        ≡ fail authentication_failed)
unfolding push digest sha256 create restore add key to_hex hex_digit insert
consume-push_example =
    consume-push 60 request (ok (bytes "r1")) 1000 1030 1031 (bytes "web") (bytes "app") []
      {grant = granted} refl (ground arith) refl
