-- ===== src/Session/Store/Bulk.antt =====
-- src/session/repository.cpp: the loops over all sessions keep the index in agreement with them.
use openproof.Base.{
  ◌≡◌, refl, false, not, some, none, Option, Text, text_key, arith, Map, lookup, map_values,
  map_option, lookup-map_values, map_values-IsSorted, lookup-retain, retain-IsSorted, filter_option,
  is_some, ap,
}
use openproof.Foundation.{Instant}
use openproof.Session.Model.{Session, is_expired_at}
use openproof.Session.Store.Consistency.{IsConsistent, digest_of}
use openproof.Session.Store.Loops.{
  purge_each-retain, purge_each-lookup, purge_each-IsSorted, find_expired, find_expired-some,
  find_expired-lookup,
}
use openproof.Session.Store.{purge_each}

module _ (f : Session → Session)
    (keeps : (s : Session) → ((f s).id ≡ s.id) × ((f s).token_digest ≡ s.token_digest)) where
  digest_of-map_option : (o : Option Session) → digest_of (map_option f o) ≡ digest_of o
  digest_of-map_option none = refl
  digest_of-map_option (some s) = ap some (keeps s).1

  map_values-by_id :
      (i : Text) (o : Option Session) (s : Session)
      → ((u : Session) → o ≡ some u → u.id ≡ i)
      → map_option f o ≡ some s
      → s.id ≡ i
  map_values-by_id i none s h e = cc
  map_values-by_id i (some u) s h e = ground (arith, h u refl, keeps u)

  pub map_values-IsConsistent :
      (m : Map Text Session) (t : Map Text Text)
      → IsConsistent m t
      → IsConsistent (map_values f m) t
  map_values-IsConsistent m t c = record {
    sessions_sorted = map_values-IsSorted f m c.sessions_sorted;
    tokens_sorted = c.tokens_sorted;
    by_id = λ i s. rw lookup-map_values (map_values-by_id i (lookup i m) s (c.by_id i));
    indexed =
        λ i d. rw (lookup-map_values f i m, digest_of-map_option (lookup i m)) (c.indexed i d);
    owned = λ d i. rw (lookup-map_values f i m, digest_of-map_option (lookup i m)) (c.owned d i);
  }

module _ (now : Instant) (m : Map Text Session) (t : Map Text Text) (c : IsConsistent m t) where
  -- No expired session shares its digest with one that is not.
  purge_spares :
      (i : Text) (s : Session) (found : Option (Text × Session))
      → lookup i m ≡ some s
      → is_expired_at s now ≡ false
      → find_expired now s.token_digest m ≡ found
      → is_some found ≡ false
  purge_spares i s none h e p = refl
  purge_spares i s (some (j, u)) h e p = ground (
    arith,
    find_expired-lookup now s.token_digest m j u c.sessions_sorted p,
    c.indexed i s.token_digest,
    c.indexed j s.token_digest,
  )

  pub purge-lookup :
      (i : Text)
      → lookup i (purge_each now m t).0
        ≡ filter_option (λ s. not (is_expired_at s now)) (lookup i m)
  purge-lookup i = rw (purge_each-retain now m t) (lookup-retain _ i m c.sessions_sorted)

  purge-by_id : (i : Text) (s : Session) → lookup i (purge_each now m t).0 ≡ some s → s.id ≡ i
  purge-by_id i s h = ground (arith, purge-lookup i, c.by_id i s)

  purge-indexed :
      (i d : Text) (o : Option Session)
      → lookup i m ≡ o
      → digest_of (lookup i (purge_each now m t).0) ≡ some d
      → lookup d (purge_each now m t).1 ≡ some i
  purge-indexed i d none p h = ground (arith, purge-lookup i)
  purge-indexed i d (some s) p h = ground (
    arith,
    purge-lookup i,
    purge_each-lookup now d m t,
    purge_spares i s (find_expired now s.token_digest m) p,
    c.indexed i d,
  )

  purge-owned :
      (d i : Text) (o : Option Session)
      → lookup i m ≡ o
      → lookup d (purge_each now m t).1 ≡ some i
      → digest_of (lookup i (purge_each now m t).0) ≡ some d
  purge-owned d i none p h = ground (arith, purge_each-lookup now d m t, c.owned d i)
  purge-owned d i (some s) p h = ground (
    arith,
    purge-lookup i,
    purge_each-lookup now d m t,
    find_expired-some now m i s p,
    c.owned d i,
  )

  pub purge-IsConsistent : IsConsistent (purge_each now m t).0 (purge_each now m t).1
  purge-IsConsistent = record {
    sessions_sorted = rw (purge_each-retain now m t) (retain-IsSorted _ m c.sessions_sorted);
    tokens_sorted = purge_each-IsSorted now m t c.tokens_sorted;
    by_id = purge-by_id;
    indexed = λ i d. purge-indexed i d (lookup i m) refl;
    owned = λ d i. purge-owned d i (lookup i m) refl;
  }
