-- ===== src/Token/Service/Device.antt =====
-- src/token/service.cpp: the grant for a device that was authorized (src/oauth/device.cpp).
use openproof.Base.{◌<◌, ◌∷◌, ◌++◌, ◌≡◌, Option, none, some, List, Text, arith, if◌then◌else◌}
use openproof.Foundation.{Result, ok, Instant, failed_precondition}
use openproof.Foundation.Exec.{Exec, raise}
use openproof.Security.{Crypto}
use openproof.Identity.Assurance.{AssuranceLevel, AuthenticationStrength}
use openproof.Session.Model.{Session}
use openproof.Oauth.Device.Store.{DevicePollResult, digest_key, empty, approve, poll}
use openproof.Oauth.Device.Ceremony.{Event, approves, run}
use openproof.Oauth.Device.Ceremony.Approval.{poll-IsVouched}
use openproof.Oauth.Device.Model.{DeviceAuthorization, is_consumed, consumed}
use openproof.Token.Model.{SenderConstraint, TokenContext, token_context}
use openproof.Token.Grant.{TokenService, TokenGrant, optional_list}
use openproof.Token.Store.{TokenRepository}
use openproof.Token.Service.{make_initial}

-- The context of an authorization that has all that a subject needs.
context_of :
    DeviceAuthorization
    → Option SenderConstraint
    → Option Text
    → Option Text
    → Option AssuranceLevel
    → Option AuthenticationStrength
    → Option Instant
    → Option TokenContext
context_of d c (some identity) (some provider) (some assurance) (some strength) (some at) = some (
    token_context d.client_id identity provider assurance strength d.scopes at
      (optional_list d.resource) c)
context_of d c none provider assurance strength at = none
context_of d c (some identity) none assurance strength at = none
context_of d c (some identity) (some provider) none strength at = none
context_of d c (some identity) (some provider) (some assurance) none at = none
context_of d c (some identity) (some provider) (some assurance) (some strength) none = none

module _ ⦃crypto : Crypto⦄ (service : TokenService) where
  grant_context :
      Option TokenContext
      → Result Text
      → Result Text
      → Result Text
      → Instant
      → Exec TokenRepository TokenGrant
  grant_context none family_raw access_raw refresh_raw now = raise failed_precondition
  grant_context (some context) family_raw access_raw refresh_raw now =
      make_initial service context family_raw access_raw refresh_raw now

  unfoldable pub issue_device_authorization :
      DeviceAuthorization
      → Option SenderConstraint
      → Result Text
      → Result Text
      → Result Text
      → Instant
      → Exec TokenRepository TokenGrant
  unfolding context_of grant_context
  issue_device_authorization d c family_raw access_raw refresh_raw now =
      if is_consumed d.status
      then grant_context
          (context_of d c d.identity d.provider d.assurance d.strength d.authenticated_at)
          family_raw access_raw refresh_raw now
      else raise failed_precondition

  -- A device is granted tokens only for an authorization that was consumed and names its subject,
  -- and the context of the grant has that subject and the client of the authorization.
  pub issue_device_authorization-consumed :
      (d : DeviceAuthorization) (c : Option SenderConstraint)
      (family_raw access_raw refresh_raw : Result Text) (now : Instant) (r : TokenRepository)
      {grant : TokenGrant}
      → (issue_device_authorization d c family_raw access_raw refresh_raw now r).1 ≡ ok grant
      → (d.status ≡ consumed)
        × (d.identity ≡ some grant.context.identity)
        × (d.assurance ≡ some grant.context.assurance)
        × (d.authenticated_at ≡ some grant.context.authenticated_at)
        × (grant.context.client ≡ d.client_id)
  unfolding issue_device_authorization make_initial token_context
  issue_device_authorization-consumed d c family_raw access_raw refresh_raw now r {grant} h =
      (ground arith, ground arith, ground arith, ground arith, ground arith)

  -- Tokens that are granted for what a poll handed to a device, after any history of a store that
  -- began empty, are those of the polling client and of the subject of a session, with the assurance
  -- and the time of that session's authentication. That session approved the authorization in the
  -- history: it presented the user code of the authorization whose device code was polled, before
  -- that expired, and the call succeeded on the authorization of this device code. Codes are
  -- compared by the keys that the store makes of them.
  pub issue_device_authorization-poll :
      (events : List Event) (device_code client : Text) (polled : Instant)
      (c : Option SenderConstraint) (family_raw access_raw refresh_raw : Result Text)
      (now : Instant) (r : TokenRepository) {result : DevicePollResult} {d : DeviceAuthorization}
      {grant : TokenGrant}
      → (poll (run empty events) device_code client polled).1 ≡ ok result
      → result.authorization ≡ some d
      → (issue_device_authorization d c family_raw access_raw refresh_raw now r).1 ≡ ok grant
      → (grant.context.client ≡ client)
        × (digest_key d.device_code ≡ digest_key device_code)
        × ((before : List Event) × (user_code : Text) × (session : Session) × (at : Instant)
            × (after : List Event) × (approved : DeviceAuthorization) × (events
                ≡ before ++ (approves user_code session at ∷ after))
            × (digest_key user_code ≡ digest_key d.user_code)
            × ((approve (run empty before) user_code session at).1 ≡ ok approved)
            × (approved.device_code ≡ d.device_code)
            × (at < d.expires_at)
            × (grant.context.identity ≡ session.identity)
            × (grant.context.assurance ≡ session.assurance)
            × (grant.context.authenticated_at ≡ session.authenticated_at))
  issue_device_authorization-poll events device_code client polled c family_raw access_raw
        refresh_raw now r {result} {d} {grant} h a g =
      let (owned, used, live, same_device, v) =
        poll-IsVouched events device_code client polled {result = result} {d = d} h a in
      let (_, identity, assurance, at, by_client) =
        issue_device_authorization-consumed d c family_raw access_raw refresh_raw now r
          {grant = grant} g in
      (
        cc (by_client, owned),
        same_device,
        (
          v.before,
          v.user_code,
          v.session,
          v.at,
          v.after,
          v.approved,
          v.split,
          v.same_code,
          v.accepted,
          v.same_device,
          v.in_time,
          ground (arith, identity, v.identity),
          ground (arith, assurance, v.assurance),
          ground (arith, at, v.authenticated_at),
        ),
      )
