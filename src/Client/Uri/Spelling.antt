-- ===== src/Client/Uri/Spelling.antt =====
-- src/client/model.cpp: how a URI that the tests of its authority accept is spelled.
use native.Mathlib.Nat.{add-mul, mul_assoc}
use openproof.Base.{
  ℕ, ◌+◌, ◌*◌, ◌-◌, ◌≤◌, ◌≡◌, ◌≢◌, ◌⊎◌, refl, sym, ap, subst, ◌∙◌, inl, inr, true, false, ◌&&◌,
  Option, none, some, [], ◌∷◌, ◌++◌, Text, text_key, ◌==◌, eq_iff, bytes, arith, leb, eqb,
  append_assoc, append-nil, All, all_of, is_some, strip_prefix, strip_prefix_sound,
  take_until-drop_until, split_first_sound, split_last_sound, split_last-none, take_until,
  drop_until, split_first, split_last, has_byte, Bool-cases, Option-cases,
}
use openproof.Client.Uri.{
  Authority, authority, of_value, bracketed, bracketed_port, plain, valid_port, port_number,
  all_digits, ends_authority, valid_https, loopback_http, loopback_host, after_scheme, names_host,
  is_loopback,
}

-- The number that decimal digits spell, by the weight of each.
unfoldable pub weight : Text → ℕ
weight [] = 1
weight (c ∷ cs) = 10 * weight cs

unfoldable pub decimal : Text → ℕ
decimal [] = 0
decimal (c ∷ cs) = (c - 48) * weight cs + decimal cs

-- Digits alone, which spell a port.
pub record IsPort (digits : Text) : Type 0 where
  pub are_digits : All (λ c. (48 ≤ c) × (c ≤ 57)) digits
  pub at_least : 1 ≤ decimal digits
  pub at_most : decimal digits ≤ 65535

-- What stands after the authority: nothing, a path or a query.
abbrev pub IsRest : Text → Type 0
IsRest [] = Unit
IsRest (c ∷ cs) = (c ≡ b'/') ⊎ (c ≡ b'?')

-- The port with its colon, if there is one.
abbrev pub IsPortPart : Text → Type 0
IsPortPart [] = Unit
IsPortPart (c ∷ digits) = (c ≡ b':') × IsPort digits

port_part : Option Text → Text
port_part none = []
port_part (some digits) = b':' ∷ digits

port_number-decimal : (n : ℕ) (cs : Text) → port_number n cs ≡ n * weight cs + decimal cs
unfolding port_number weight decimal
port_number-decimal n [] = omega arith
port_number-decimal n (c ∷ cs) = ground (
  arith,
  port_number-decimal (n * 10 + (c - 48)) cs,
  add-mul (n * 10) (c - 48) (weight cs),
  mul_assoc n 10 (weight cs),
)

digits_sound :
    (cs : Text)
    → all_of (λ c. leb b'0' c && leb c b'9') cs ≡ true
    → All (λ c. (48 ≤ c) × (c ≤ 57)) cs
unfolding all_of
digits_sound [] h = tt
digits_sound (c ∷ cs) h = ((ground arith, ground arith), digits_sound cs (ground arith))

valid_port-IsPort : (digits : Text) → valid_port digits ≡ true → IsPort digits
unfolding valid_port all_digits
valid_port-IsPort digits h = record {
  are_digits = digits_sound digits (ground arith);
  at_least = ground (arith, port_number-decimal 0 digits);
  at_most = ground (arith, port_number-decimal 0 digits);
}

take_until-clear :
    (s : Text)
    → (has_byte b'/' (take_until ends_authority s) ≡ false)
      × (has_byte b'?' (take_until ends_authority s) ≡ false)
unfolding take_until has_byte
take_until-clear [] = (refl, refl)
take_until-clear (c ∷ s) = (ground (arith, take_until-clear s), ground (arith, take_until-clear s))

drop_until-IsRest : (s : Text) → IsRest (drop_until ends_authority s)
unfolding drop_until
drop_until-IsRest [] = tt
drop_until-IsRest (c ∷ s) = elim (Bool-cases (ends_authority c)) [
  | inl p ↦
      rw p
        (elim (Bool-cases (eqb c b'/')) [ inl q ↦ inl (ground arith) | inr q ↦ inr (ground arith) ])
  | inr p ↦ rw p (drop_until-IsRest s)
]

-- An authority: a host, which has no colon unless it is in brackets, and a port or none.
pub record IsAuthority (text host port : Text) : Type 0 where
  pub spelled : text ≡ host ++ port
  pub port_form : IsPortPart port
  pub host_form : (has_byte b':' host ≡ false) ⊎ ((inner : Text) × (host ≡ b'[' ∷ inner))
  pub no_user : has_byte b'@' text ≡ false

bracketed_port_sound :
    (host after : Text) {a : Authority}
    → bracketed_port host after ≡ some a
    → (a.host ≡ host) × (after ≡ port_part a.port) × IsPortPart (port_part a.port)
unfolding bracketed_port port_part
bracketed_port_sound host [] {a} h =
    let same : a ≡ record { host = host; port = none } = ground arith in rw same (refl, refl, tt)
bracketed_port_sound host (c ∷ digits) {a} h =
    let same : a ≡ record { host = host; port = some digits } = ground arith in
    let colon : c ≡ b':' = ground arith in
    rw (same, colon) (refl, refl, (refl, valid_port-IsPort digits (ground arith)))

starts_with-prefix :
    (c : ℕ) (cs before rest : Text) (d : ℕ)
    → c ≢ d
    → c ∷ cs ≡ before ++ (d ∷ rest)
    → (inner : Text) × (before ≡ c ∷ inner)
starts_with-prefix c cs [] rest d differs h = absurd (ground arith)
starts_with-prefix c cs (x ∷ before) rest d differs h = (before, ground arith)

of_value_sound :
    (text : Text) {a : Authority}
    → of_value text ≡ some a
    → IsAuthority text a.host (port_part a.port)
unfolding of_value bracketed plain port_part
of_value_sound [] {a} h = absurd (ground arith)
of_value_sound (c ∷ cs) {a} h = elim (Bool-cases (eqb c b'[')) [
  | inl square ↦ elim (Option-cases (split_first b']' (c ∷ cs))) [
    | inl p ↦ absurd (ground arith)
    | inr ((before, after), p) ↦
        let parts = split_first_sound b']' (c ∷ cs) p in
        let (same_host, rest, form) =
          bracketed_port_sound (before ++ (b']' ∷ [])) after {a = a} (ground arith) in
        let (inner, starts) = starts_with-prefix c cs before after b']' (λ e. ground arith) parts in
        record {
          spelled = rw (same_host, sym rest) (parts ∙ sym (append_assoc before (b']' ∷ []) after));
          port_form = form;
          host_form = inr (inner ++ (b']' ∷ []), ground (arith, same_host, starts));
          no_user = ground arith;
        }
  ]
  | inr other ↦ elim (Option-cases (split_last b':' (c ∷ cs))) [
    | inl p ↦
        let same : a ≡ record { host = c ∷ cs; port = none } = ground arith in
        rw same (record {
          spelled = sym (append-nil (c ∷ cs));
          port_form = tt;
          host_form = inl (split_last-none b':' (c ∷ cs) p);
          no_user = ground arith;
        })
    | inr ((host, digits), p) ↦
        let same : a ≡ record { host = host; port = some digits } = ground arith in
        rw same (record {
          spelled = split_last_sound b':' (c ∷ cs) p;
          port_form = (refl, valid_port-IsPort digits (ground arith));
          host_form = inl (ground arith);
          no_user = ground arith;
        })
  ]
]

-- What an authority that was found says of the URI.
pub record IsSpelled (scheme uri host port : Text) : Type 0 where
  pub rest : Text
  pub spelled : uri ≡ scheme ++ (host ++ (port ++ rest))
  pub port_form : IsPortPart port
  pub host_form : (has_byte b':' host ≡ false) ⊎ ((inner : Text) × (host ≡ b'[' ∷ inner))
  pub no_user : has_byte b'@' (host ++ port) ≡ false
  pub no_path : has_byte b'/' (host ++ port) ≡ false
  pub no_query : has_byte b'?' (host ++ port) ≡ false
  pub rest_form : IsRest rest

authority_sound :
    (uri scheme : Text) {a : Authority}
    → authority uri scheme ≡ some a
    → IsSpelled scheme uri a.host (port_part a.port)
unfolding authority after_scheme
authority_sound uri scheme {a} h = elim (Option-cases (strip_prefix scheme uri)) [
  | inl p ↦ absurd (ground arith)
  | inr (tail, p) ↦
      let whole = of_value_sound (take_until ends_authority tail) {a = a} (ground arith) in
      let (no_path, no_query) = take_until-clear tail in
      record {
        rest = drop_until ends_authority tail;
        spelled =
            strip_prefix_sound scheme uri p
            ∙ ap (λ t. scheme ++ t)
                (take_until-drop_until ends_authority tail
                  ∙ ap (λ t. t ++ drop_until ends_authority tail) whole.spelled
                  ∙ append_assoc a.host (port_part a.port) (drop_until ends_authority tail));
        port_form = whole.port_form;
        host_form = whole.host_form;
        no_user = subst (λ t. has_byte b'@' t ≡ false) whole.spelled whole.no_user;
        no_path = subst (λ t. has_byte b'/' t ≡ false) whole.spelled no_path;
        no_query = subst (λ t. has_byte b'?' t ≡ false) whole.spelled no_query;
        rest_form = drop_until-IsRest tail;
      }
]

-- A URI of HTTPS with a host: after the scheme come the host, which has no colon unless it begins
-- with a bracket, and a port or none, without user information, and then nothing, a path or a query.
pub record IsHttpsUri (uri : Text) : Type 0 where
  pub host : Text
  pub port : Text
  pub named : host ≢ []
  pub form : IsSpelled (bytes "https://") uri host port

-- A URI of HTTP whose host is a loopback address, with a port.
pub record IsLoopbackUri (uri : Text) : Type 0 where
  pub host : Text
  pub digits : Text
  pub rest : Text
  pub spelled : uri ≡ bytes "http://" ++ (host ++ ((b':' ∷ digits) ++ rest))
  pub loopback : (host ≡ bytes "127.0.0.1") ⊎ (host ≡ bytes "[::1]")
  pub port_form : IsPort digits
  pub rest_form : IsRest rest

pub valid_https-IsHttpsUri : (uri : Text) → valid_https uri ≡ true → IsHttpsUri uri
unfolding valid_https names_host
valid_https-IsHttpsUri uri h = elim (Option-cases (authority uri (bytes "https://"))) [
  | inl p ↦ absurd (ground arith)
  | inr (a, p) ↦ record {
    host = a.host;
    port = port_part a.port;
    named = λ e. ground arith;
    form = authority_sound uri (bytes "https://") p;
  }
]

port_digits :
    (port : Option Text) → is_some port ≡ true → (digits : Text) × (port_part port ≡ b':' ∷ digits)
unfolding port_part
port_digits none h = absurd (ground arith)
port_digits (some digits) h = (digits, refl)

pub loopback_http-IsLoopbackUri : (uri : Text) → loopback_http uri ≡ true → IsLoopbackUri uri
unfolding loopback_http is_loopback loopback_host
loopback_http-IsLoopbackUri uri h = elim (Option-cases (authority uri (bytes "http://"))) [
  | inl p ↦ absurd (ground arith)
  | inr (a, p) ↦
      let form = authority_sound uri (bytes "http://") p in
      let (digits, e) = port_digits a.port (ground arith) in
      record {
        host = a.host;
        digits = digits;
        rest = form.rest;
        spelled = subst (λ t. uri ≡ bytes "http://" ++ (a.host ++ (t ++ form.rest))) e form.spelled;
        loopback = elim (Bool-cases (a.host == bytes "127.0.0.1")) [
          | inl q ↦ inl ((eq_iff a.host (bytes "127.0.0.1")).0 q)
          | inr q ↦ inr ((eq_iff a.host (bytes "[::1]")).0 (ground arith))
        ];
        port_form = (subst IsPortPart e form.port_form).1;
        rest_form = form.rest_form;
      }
]
