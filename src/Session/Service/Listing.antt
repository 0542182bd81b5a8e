-- ===== src/Session/Service/Listing.antt =====
-- src/session/service.cpp: listing and revoking the sessions of an identity.
use openproof.Base.{
  ℕ, Bool, false, not, ◌||◌, Option, none, some, List, [], ◌∷◌, Text, text_key, ◌==◌, if◌then◌else◌,
  ltb, keep_if,
}
use openproof.Foundation.{Instant, not_found}
use openproof.Foundation.Exec.{Exec, pure, raise, ◌>>=◌}
use openproof.Session.Model.{Session, is_active, is_expired_at}
use openproof.Session.Store.{SessionRepository, add, use_token}
use openproof.Session.Store as Store

-- `std::ranges::sort` by the latest use; sessions seen at one instant keep their order.
unfoldable pub insert_by_last_seen : Session → List Session → List Session
insert_by_last_seen s [] = s ∷ []
insert_by_last_seen s (x ∷ xs) =
    let rest = insert_by_last_seen s xs in
    if ltb s.last_seen_at x.last_seen_at then x ∷ rest else s ∷ x ∷ xs

unfoldable pub sort_by_last_seen : List Session → List Session
unfolding insert_by_last_seen
sort_by_last_seen [] = []
sort_by_last_seen (s ∷ xs) = insert_by_last_seen s (sort_by_last_seen xs)

unfoldable pub list : Text → Instant → Exec SessionRepository (List Session)
unfolding sort_by_last_seen
list identity now = do
  values ← (λ r. (r, Store.list r identity))
  pure (
      sort_by_last_seen
        (keep_if (λ s. not (not (is_active s.state) || is_expired_at s now)) values))

-- `revoke` and `revokeAll` pass on to the repository.
unfoldable pub revoke : Text → Instant → Exec SessionRepository (Unit {0})
revoke id now r = Store.revoke r id now

unfoldable pub revoke_all : Text → Instant → Exec SessionRepository ℕ
revoke_all identity now r = Store.revoke_all r identity now

is_owned : Text → Option Session → Bool
is_owned identity none = false
is_owned identity (some s) = s.identity == identity

unfoldable pub revoke_owned : Text → Text → Instant → Exec SessionRepository (Unit {0})
unfolding is_owned
revoke_owned identity id now = do
  found ← (λ r. (r, Store.find r id))
  if not (is_owned identity found) then raise not_found else (λ r. Store.revoke r id now)
