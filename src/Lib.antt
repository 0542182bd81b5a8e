-- ===== src/Lib.antt =====
-- OpenProof: the core of the identity platform as a verification library.
--
-- The program keeps identities, the external accounts that are linked to them, sessions, OAuth tokens,
-- organizations with their members, and the policy that decides who may do what. A sign-in with a
-- provider is a transaction (src/identity/provider/transaction.cpp) and creates a session
-- (src/session/service.cpp), each request is authenticated by its token, first against the session
-- repository and then as delegated OAuth access (src/token/service.cpp), and a protected operation
-- is decided on a request that is built from the repositories of organizations, identities and
-- memberships (src/policy/decision.cpp). A session authorizes a registered client
-- (src/client/service.cpp) by a code with PKCE (src/oauth/service.cpp), with the consent of its
-- identity (src/consent/service.cpp), or a device by a code that its user types
-- (src/oauth/device.cpp); the token service grants tokens for either, and machine tokens to the
-- identities of services (src/resource/service.cpp). A path in these comments is that of the
-- repository.
--
-- Foundation            src/foundation: error codes, results; Foundation/Encoding and Foundation/Base64
--                       are its encoding.cpp, and Foundation/Exec is the monad of methods that
--                       change state and may fail
-- Security              src/security/hash.cpp: the comparison in constant time, SHA-256 and HMAC
-- Identity/Assurance    src/identity/provider/assurance.cpp
-- Identity/Subject      src/identity/core/identity.cpp; Identity/Repository its repository.cpp
-- Identity/Link         src/identity/core/link.cpp: the request; Identity/Directory: the directory
-- Identity/Merge        src/identity/core/merge.cpp: the request, and `applyMerge` as `apply_merge`
-- Identity/Transaction  src/identity/provider/transaction.cpp; Identity/Transaction/Store its store
-- Session/Model         src/session/model.cpp: one session; `use` is `use_session`
-- Session/Store         src/session/repository.cpp: the repository; `use` is `use_token`
-- Session/Delegated     src/session/service.cpp: delegated access; Session/Service: the service, with
--                       Session/Service/Listing for the sessions of one identity
-- Application           src/application: applications, their repository and `Application/Registry`
-- Client                src/client: Client/Uri and Client/Model are its model.cpp, Client/Repository
--                       its repository.cpp, Client/Manager its service.cpp
-- Oauth                 src/oauth: Oauth/Model, Oauth/Store and Oauth/Service for authorization codes
--                       (model.cpp, repository.cpp, service.cpp), Oauth/Device for device.cpp,
--                       Oauth/Pushed for par.cpp
-- Consent               src/consent: Consent/Model, Consent/Repository and Consent/Service
-- Resource              src/resource: resource servers and service identities; Resource/Registry and
--                       Resource/Service are its service.cpp
-- Token/Model           src/token/model.cpp; Token/Store src/token/repository.cpp
-- Token/Grant           src/token/service.cpp: keys, policy, grants; Token/Service: the service, with
--                       Token/Service/Device for devices, Token/Service/Machine for services and
--                       Token/Service/Access for revocation
-- Organization          src/organization: organizations, memberships and their repositories
-- Policy                src/policy/decision.cpp: requests, rules, decisions
-- Base                  names, maps, lists, sorting and keys that all of them use
-- Examples              the theorems at concrete inputs
--
-- A method of an object is a function that takes the state and returns it beside the result, on
-- errors too. A repository locks a mutex in every method, so a history of calls is a list: `Call`
-- or `Event` with `step` and `run`. Strings and digests are lists of bytes, a `std::map` is a list of
-- entries in the order of their keys, a vector that is sorted and made unique is an ascending list.
-- An instant and a duration are natural numbers of milliseconds, 0 for every duration that is not
-- positive, so the arithmetic of 64-bit ticks near its ends is not modelled; the sequence number
-- of a refresh token wraps at 64 bits. Every loop is over a finite list, and no model uses fuel.
--
-- The cryptographic library is a record of `Security`: the comparison of buffers, documented to be
-- 0 exactly at equal ones, and HMAC and SHA-256, which may fail and of which nothing is assumed.
-- Random values and the clock are arguments, one for each call of the code. A service that reads the
-- client manager holds the repositories of the clients and of the applications. An error is its
-- code without its texts.
--
-- `applyMerge` makes several calls, each of them under a lock of its own. `apply_merge` is their
-- composition with no other call between them, and `move_all`, its loop, is also stated from any
-- state of the stores and over any list, as other calls can leave them before the loop.
--
-- Not modelled: HTTP, JSON, SQL and the network, the shared pointers under the value types, which
-- copy before they write, and locks, beyond that each method is one step. Proofs of possession,
-- signed requests, the outcomes and the registry of providers, credentials and audit are left for
-- later. The database repositories are not the in-memory ones of this model.
pub mod Base
pub mod Foundation
pub mod Security
pub mod Identity
pub mod Session
pub mod Application
pub mod Client
pub mod Oauth
pub mod Consent
pub mod Resource
pub mod Token
pub mod Organization
pub mod Policy
pub mod Examples
