-- ===== src/Organization/Membership/Roles.antt =====
-- src/organization/membership.cpp: the list of roles as a grant and a revocation leave it.
use openproof.Base.{
  ◌≡◌, refl, inl, inr, Bool-cases, true, false, ◌||◌, List, [], ◌∷◌, ◌++◌, Text, text_key, ◌==◌,
  eq_iff, is_empty, contains, insert_by, sort_by, IsAscending, AllAfter, if◌then◌else◌, arith,
}
use openproof.Organization.Membership.{erase_first}

abbrev id_text : Text → Text
id_text t = t

contains-insert_by :
    (b a : Text) (xs : List Text) → contains b (insert_by id_text a xs) ≡ contains b (a ∷ xs)
unfolding insert_by contains
contains-insert_by b a [] = refl
contains-insert_by b a (x ∷ xs) = ground (arith, contains-insert_by b a xs)

contains-sort_by : (b : Text) (xs : List Text) → contains b (sort_by id_text xs) ≡ contains b xs
unfolding sort_by contains
contains-sort_by b [] = refl
contains-sort_by b (x ∷ xs) =
    ground (arith, contains-insert_by b x (sort_by id_text xs), contains-sort_by b xs)

contains-append :
    (b a : Text) (xs : List Text) → contains b (xs ++ (a ∷ [])) ≡ (contains b xs || (a == b))
unfolding contains
contains-append b a [] = ground arith
contains-append b a (x ∷ xs) = ground (arith, contains-append b a xs)

AllAfter-contains : (b : Text) (xs : List Text) → AllAfter b xs → contains b xs ≡ false
unfolding contains
AllAfter-contains b [] u = refl
AllAfter-contains b (x ∷ xs) u =
    ground (arith, eq_iff x b, text_key.before_irrefl b, AllAfter-contains b xs u.1)

AllAfter-insert_by :
    (b a : Text) (xs : List Text)
    → text_key.before b a ≡ true
    → AllAfter b xs
    → AllAfter b (insert_by id_text a xs)
unfolding insert_by
AllAfter-insert_by b a [] h u = (h, tt)
AllAfter-insert_by b a (x ∷ xs) h u = ground (arith, AllAfter-insert_by b a xs h u.1)

AllAfter-trans :
    (a b : Text) (xs : List Text) → text_key.before a b ≡ true → AllAfter b xs → AllAfter a xs
AllAfter-trans a b [] h u = tt
AllAfter-trans a b (x ∷ xs) h u = (text_key.before_trans a b x h u.0, AllAfter-trans a b xs h u.1)

insert_by-IsAscending :
    (a : Text) (xs : List Text)
    → contains a xs ≡ false
    → IsAscending xs
    → IsAscending (insert_by id_text a xs)
unfolding insert_by contains
insert_by-IsAscending a [] n s = (tt, tt)
insert_by-IsAscending a (x ∷ xs) n s = elim (Bool-cases (text_key.before x a)) [
  | inl p ↦ rw p (AllAfter-insert_by x a xs p s.0, insert_by-IsAscending a xs (ground arith) s.1)
  | inr p ↦
      let first : text_key.before a x ≡ true = text_key.before_total x a (ground arith) p in
      rw p ((first, AllAfter-trans a x xs first s.0), s)
]

pub sort_append-IsAscending :
    (r : Text) (xs : List Text)
    → contains r xs ≡ false
    → IsAscending xs
    → IsAscending (sort_by id_text (xs ++ (r ∷ [])))
unfolding sort_by contains insert_by
sort_append-IsAscending r [] n s = (tt, tt)
sort_append-IsAscending r (x ∷ xs) n s =
    insert_by-IsAscending x (sort_by id_text (xs ++ (r ∷ [])))
      (ground (
        arith,
        contains-sort_by x (xs ++ (r ∷ [])),
        contains-append x r xs,
        AllAfter-contains x xs s.0,
        eq_iff x r,
        eq_iff r x,
      ))
      (sort_append-IsAscending r xs (ground arith) s.1)

AllAfter-erase_first : (b r : Text) (xs : List Text) → AllAfter b xs → AllAfter b (erase_first r xs)
unfolding erase_first
AllAfter-erase_first b r [] u = tt
AllAfter-erase_first b r (x ∷ xs) u = ground (arith, AllAfter-erase_first b r xs u.1)

pub erase_first-IsAscending :
    (r : Text) (xs : List Text) → IsAscending xs → IsAscending (erase_first r xs)
unfolding erase_first
erase_first-IsAscending r [] s = tt
erase_first-IsAscending r (x ∷ xs) s =
    ground (arith, AllAfter-erase_first x r xs s.0, erase_first-IsAscending r xs s.1)

pub contains-erase_first :
    (b r : Text) (xs : List Text)
    → IsAscending xs
    → contains b (erase_first r xs) ≡ (if r == b then false else contains b xs)
unfolding erase_first contains
contains-erase_first b r [] s = ground arith
contains-erase_first b r (x ∷ xs) s = ground (
  arith,
  eq_iff x r,
  eq_iff x b,
  eq_iff r b,
  AllAfter-contains x xs s.0,
  contains-erase_first b r xs s.1,
)

pub erase_first-empty :
    (r : Text) (xs : List Text) → is_empty xs ≡ true → is_empty (erase_first r xs) ≡ true
unfolding erase_first
erase_first-empty r [] h = refl
erase_first-empty r (x ∷ xs) h = ground arith
