-- ===== src/Session/Store/Consistency.antt =====
-- src/session/repository.cpp: the sessions and the index of token digests agree after every call.
use openproof.Base.{
  ◌≡◌, some, none, Option, Text, text_key, eq_iff, arith, Map, lookup, insert, erase, lookup-insert,
  lookup-erase, IsSorted, insert-IsSorted, erase-IsSorted,
}
use openproof.Session.Model.{Session}
use openproof.Session.Store.{SessionRepository, empty}

abbrev pub digest_of : Option Session → Option Text
digest_of none = none
digest_of (some s) = some s.token_digest

-- Every identifier in the index is that of a session with that digest, and every session stands
-- under its identifier and in the index.
pub record IsConsistent (sessions : Map Text Session) (tokens : Map Text Text) : Type 0 where
  pub sessions_sorted : IsSorted sessions
  pub tokens_sorted : IsSorted tokens
  pub by_id : (i : Text) (s : Session) → lookup i sessions ≡ some s → s.id ≡ i
  pub indexed : (i d : Text) → digest_of (lookup i sessions) ≡ some d → lookup d tokens ≡ some i
  pub owned : (d i : Text) → lookup d tokens ≡ some i → digest_of (lookup i sessions) ≡ some d

abbrev pub Agrees : SessionRepository → Type 0
Agrees r = IsConsistent r.sessions r.tokens

pub empty-Agrees : Agrees empty
unfolding empty
empty-Agrees = record {
  sessions_sorted = tt;
  tokens_sorted = tt;
  by_id = λ i s h. cc;
  indexed = λ i d h. cc;
  owned = λ d i h. cc;
}

-- A session written back under its identifier, with its identifier and its digest.
pub write-IsConsistent :
    (m : Map Text Session) (t : Map Text Text) (i : Text) (s s' : Session)
    → IsConsistent m t
    → lookup i m ≡ some s
    → s'.id ≡ s.id
    → s'.token_digest ≡ s.token_digest
    → IsConsistent (insert i s' m) t
write-IsConsistent m t i s s' c h same_id same_digest = record {
  sessions_sorted = insert-IsSorted i s' m c.sessions_sorted;
  tokens_sorted = c.tokens_sorted;
  by_id = λ j u. rw lookup-insert (ground (arith, eq_iff i j, c.by_id i s h, c.by_id j u));
  indexed = λ j d. rw lookup-insert (ground (arith, eq_iff i j, c.indexed i d, c.indexed j d));
  owned = λ d j. rw lookup-insert (ground (arith, eq_iff i j, c.owned d j));
}

pub add-IsConsistent :
    (m : Map Text Session) (t : Map Text Text) (s : Session)
    → IsConsistent m t
    → lookup s.id m ≡ none
    → lookup s.token_digest t ≡ none
    → IsConsistent (insert s.id s m) (insert s.token_digest s.id t)
add-IsConsistent m t s c no_id no_digest = record {
  sessions_sorted = insert-IsSorted s.id s m c.sessions_sorted;
  tokens_sorted = insert-IsSorted s.token_digest s.id t c.tokens_sorted;
  by_id = λ j u. rw lookup-insert (ground (arith, eq_iff s.id j, c.by_id j u));
  indexed = λ j d.
      rw (lookup-insert s.id j s m, lookup-insert s.token_digest d s.id t)
        (ground (arith, eq_iff s.id j, eq_iff s.token_digest d, c.indexed j d));
  owned = λ d j.
      rw (lookup-insert s.id j s m, lookup-insert s.token_digest d s.id t)
        (ground (arith, eq_iff s.id j, eq_iff s.token_digest d, c.owned d j));
}

pub rotate-IsConsistent :
    (m : Map Text Session) (t : Map Text Text) (i replacement : Text) (s s' : Session)
    → IsConsistent m t
    → lookup i m ≡ some s
    → lookup replacement t ≡ none
    → s'.id ≡ s.id
    → s'.token_digest ≡ replacement
    → IsConsistent (insert i s' m) (insert replacement i (erase s.token_digest t))
rotate-IsConsistent m t i replacement s s' c h fresh same_id new_digest = record {
  sessions_sorted = insert-IsSorted i s' m c.sessions_sorted;
  tokens_sorted =
      insert-IsSorted replacement i (erase s.token_digest t)
        (erase-IsSorted s.token_digest t c.tokens_sorted);
  by_id = λ j u. rw lookup-insert (ground (arith, eq_iff i j, c.by_id i s h, c.by_id j u));
  indexed = λ j d.
      rw
        (
          lookup-insert i j s' m,
          lookup-insert replacement d i (erase s.token_digest t),
          lookup-erase s.token_digest d t,
        )
        (ground (
          arith,
          eq_iff i j,
          eq_iff replacement d,
          eq_iff s.token_digest d,
          c.indexed j d,
          c.indexed i d,
        ));
  owned = λ d j.
      rw
        (
          lookup-insert i j s' m,
          lookup-insert replacement d i (erase s.token_digest t),
          lookup-erase s.token_digest d t,
        )
        (ground (arith, eq_iff i j, eq_iff replacement d, eq_iff s.token_digest d, c.owned d j));
}
