-- ===== src/Session/Store.antt =====
-- src/session/repository.cpp: the in-memory repository, sessions by identifier and identifiers by
-- token digest. The lock makes each method one step; a method returns the repository it leaves.
pub mod Consistency
pub mod Loops
pub mod Bulk
pub mod Calls
pub mod Rotation
pub mod Revocation
pub mod Reference
pub mod Refinement
use openproof.Base.{
  ℕ, zero, ◌+◌, Bool, true, false, ◌||◌, ◌&&◌, Option, none, some, List, [], ◌∷◌, Text, text_key,
  ◌==◌, if◌then◌else◌, Map, lookup, contains_key, insert, erase, length,
}
use openproof.Foundation.{
  Result, ok, fail, Status, Instant, authentication_failed, already_exists, internal, not_found,
}
use openproof.Security.{Crypto}
use openproof.Session.Model.{Session, is_active, is_expired_at, use_session, rotate_token}
use openproof.Session.Model as Model

pub record SessionRepository : Type 0 where
  pub sessions : Map Text Session
  pub tokens : Map Text Text

unfoldable pub empty : SessionRepository
empty = record { sessions = []; tokens = [] }

unfoldable pub add : SessionRepository → Session → SessionRepository × Status
add r s =
    if contains_key s.id r.sessions || contains_key s.token_digest r.tokens
    then (r, fail already_exists)
    else (
      record r {
        sessions = insert s.id s r.sessions;
        tokens = insert s.token_digest s.id r.tokens;
      },
      ok tt,
    )

-- The session that a method wrote through its iterator.
write : SessionRepository → Text → Session → SessionRepository
write r id s = record r { sessions = insert id s r.sessions }

module _ ⦃crypto : Crypto⦄ where
  after_use : SessionRepository → Text → Session × Status → SessionRepository × Result Session
  unfolding write
  after_use r id (s, ok u) = (write r id s, ok s)
  after_use r id (s, fail e) = (write r id s, fail e)

  use_found :
      SessionRepository
      → Text
      → Instant
      → Text
      → Option Session
      → SessionRepository × Result Session
  use_found r token now id none = (r, fail internal)
  use_found r token now id (some s) = after_use r id (use_session s token now)

  use_indexed :
      SessionRepository → Text → Instant → Option Text → SessionRepository × Result Session
  use_indexed r token now none = (r, fail authentication_failed)
  use_indexed r token now (some id) = use_found r token now id (lookup id r.sessions)

  unfoldable pub use_token : SessionRepository → Text → Instant → SessionRepository × Result Session
  unfolding after_use use_found use_indexed
  use_token r token now = use_indexed r token now (lookup token r.tokens)

  after_rotation :
      SessionRepository → Text → Text → Text → Session × Status → SessionRepository × Status
  unfolding write
  after_rotation r id old replacement (s, fail e) = (write r id s, fail e)
  after_rotation r id old replacement (s, ok u) = (
    record {
      sessions = insert id s r.sessions;
      tokens = insert replacement id (erase old r.tokens);
    },
    ok tt,
  )

  rotate_found :
      SessionRepository → Text → Text → Text → Instant → Option Session → SessionRepository × Status
  rotate_found r id expected replacement now none = (r, fail authentication_failed)
  rotate_found r id expected replacement now (some s) =
      if contains_key replacement r.tokens
      then (r, fail already_exists)
      else after_rotation r id s.token_digest replacement (rotate_token s expected replacement now)

  unfoldable pub rotate :
      SessionRepository → Text → Text → Text → Instant → SessionRepository × Status
  unfolding after_rotation rotate_found
  rotate r id expected replacement now =
      rotate_found r id expected replacement now (lookup id r.sessions)

after_revoke : SessionRepository → Text → Session × Status → SessionRepository × Status
unfolding write
after_revoke r id (s, status) = (write r id s, status)

revoke_found : SessionRepository → Text → Instant → Option Session → SessionRepository × Status
revoke_found r id now none = (r, fail not_found)
revoke_found r id now (some s) = after_revoke r id (Model.revoke s now)

unfoldable pub revoke : SessionRepository → Text → Instant → SessionRepository × Status
unfolding after_revoke revoke_found
revoke r id now = revoke_found r id now (lookup id r.sessions)

-- The loop stops at a session whose revocation fails.
next_session :
    Text
    → Session × Status
    → Map Text Session × Result ℕ
    → Map Text Session
    → Map Text Session × Result ℕ
next_session id (s, fail e) rest m = ((id, s) ∷ m, fail e)
next_session id (s, ok u) (m', ok n) m = ((id, s) ∷ m', ok (n + 1))
next_session id (s, ok u) (m', fail e) m = ((id, s) ∷ m', fail e)

keep_session : Text → Session → Map Text Session × Result ℕ → Map Text Session × Result ℕ
keep_session id s (m, n) = ((id, s) ∷ m, n)

pub revoke_each : Text → Instant → Map Text Session → Map Text Session × Result ℕ
unfolding next_session keep_session
revoke_each identity now [] = ([], ok 0)
revoke_each identity now ((id, s) ∷ m) =
    let rest = revoke_each identity now m in
    if (s.identity == identity) && is_active s.state
    then next_session id (Model.revoke s now) rest m
    else keep_session id s rest

unfoldable pub revoke_all : SessionRepository → Text → Instant → SessionRepository × Result ℕ
revoke_all r identity now =
    let (sessions, count) = revoke_each identity now r.sessions in
    (record r { sessions = sessions }, count)

unfoldable pub find : SessionRepository → Text → Result (Option Session)
find r id = ok (lookup id r.sessions)

unfoldable pub values_of : Text → Map Text Session → List Session
values_of identity [] = []
values_of identity ((id, s) ∷ m) =
    let rest = values_of identity m in if s.identity == identity then s ∷ rest else rest

unfoldable pub list : SessionRepository → Text → Result (List Session)
unfolding values_of
list r identity = ok (values_of identity r.sessions)

purge_entry :
    Bool
    → Text
    → Session
    → Map Text Session × Map Text Text × ℕ
    → Map Text Session × Map Text Text × ℕ
purge_entry true id s (sessions, tokens, removed) = (sessions, tokens, removed + 1)
purge_entry false id s (sessions, tokens, removed) = ((id, s) ∷ sessions, tokens, removed)

pub purge_each : Instant → Map Text Session → Map Text Text → Map Text Session × Map Text Text × ℕ
unfolding purge_entry
purge_each now [] tokens = ([], tokens, 0)
purge_each now ((id, s) ∷ m) tokens =
    purge_entry (is_expired_at s now) id s
      (purge_each now m (if is_expired_at s now then erase s.token_digest tokens else tokens))

unfoldable pub purge_expired : SessionRepository → Instant → SessionRepository × ℕ
purge_expired r now =
    let (sessions, tokens, removed) = purge_each now r.sessions r.tokens in
    (record { sessions = sessions; tokens = tokens }, removed)

unfoldable pub size : SessionRepository → ℕ
size r = length r.sessions
