-- ===== src/Client/Uri.antt =====
-- src/client/model.cpp: the authority of a URI, and the two forms of redirect that are accepted,
-- HTTPS and plain HTTP to a loopback address with a port.
pub mod Spelling
use openproof.Base.{
  ℕ, ◌+◌, ◌-◌, ◌*◌, Bool, false, not, ◌&&◌, ◌||◌, Option, none, some, [], ◌∷◌, ◌++◌, Text, text_key,
  ◌==◌, bytes, ltb, leb, eqb, is_empty, length, all_of, is_some, strip_prefix, take_until,
  drop_until, split_first, split_last, has_byte, if◌then◌else◌,
}

unfoldable pub all_digits : Text → Bool
all_digits value = not (is_empty value) && all_of (λ c. leb b'0' c && leb c b'9') value

-- The loop that reads the number; five digits at most, so `unsigned int` is wide enough.
unfoldable pub port_number : ℕ → Text → ℕ
port_number port [] = port
port_number port (c ∷ cs) = port_number (port * 10 + (c - b'0')) cs

unfoldable pub valid_port : Text → Bool
valid_port value =
    if not (all_digits value) || ltb 5 (length value)
    then false
    else ltb 0 (port_number 0 value) && leb (port_number 0 value) 65535

pub record Authority : Type 0 where
  pub host : Text
  pub port : Option Text

-- What follows the closing bracket of an address in brackets.
bracketed_port : Text → Text → Option Authority
bracketed_port host [] = some (record { host = host; port = none })
bracketed_port host (c ∷ port) =
    if not (eqb c b':')
    then none
    else if not (valid_port port)
    then none
    else some (record { host = host; port = some port })

bracketed : Option (Text × Text) → Option Authority
unfolding bracketed_port
bracketed none = none
bracketed (some (before, after)) = bracketed_port (before ++ (b']' ∷ [])) after

plain : Text → Option (Text × Text) → Option Authority
plain value none = some (record { host = value; port = none })
plain value (some (host, port)) =
    if is_empty host || has_byte b':' host || not (valid_port port)
    then none
    else some (record { host = host; port = some port })

of_value : Text → Option Authority
unfolding bracketed plain
of_value [] = none
of_value (c ∷ cs) =
    if has_byte b'@' (c ∷ cs)
    then none
    else if eqb c b'['
    then bracketed (split_first b']' (c ∷ cs))
    else plain (c ∷ cs) (split_last b':' (c ∷ cs))

abbrev pub ends_authority : ℕ → Bool
ends_authority c = eqb c b'/' || eqb c b'?'

after_scheme : Option Text → Option Authority
unfolding of_value
after_scheme none = none
after_scheme (some rest) = of_value (take_until ends_authority rest)

unfoldable pub authority : Text → Text → Option Authority
unfolding after_scheme
authority uri scheme = after_scheme (strip_prefix scheme uri)

names_host : Option Authority → Bool
names_host none = false
names_host (some a) = not (is_empty a.host)

unfoldable pub valid_https : Text → Bool
unfolding names_host
valid_https uri = names_host (authority uri (bytes "https://"))

unfoldable pub loopback_host : Text → Bool
loopback_host host = (host == bytes "127.0.0.1") || (host == bytes "[::1]")

is_loopback : Option Authority → Bool
is_loopback none = false
is_loopback (some a) = is_some a.port && loopback_host a.host

unfoldable pub loopback_http : Text → Bool
unfolding is_loopback
loopback_http uri = is_loopback (authority uri (bytes "http://"))

pub record LoopbackRedirect : Type 0 where
  pub host : Text
  pub path_and_query : Text

suffix_of : Option Text → Text
suffix_of none = []
suffix_of (some rest) = drop_until ends_authority rest

with_suffix : Text → Option Authority → Option LoopbackRedirect
with_suffix suffix none = none
with_suffix suffix (some a) =
    if not (is_some a.port) || not (loopback_host a.host)
    then none
    else some (record { host = a.host; path_and_query = suffix })

unfoldable pub parse_loopback_redirect : Text → Option LoopbackRedirect
unfolding suffix_of with_suffix
parse_loopback_redirect uri =
    with_suffix (suffix_of (strip_prefix (bytes "http://") uri)) (authority uri (bytes "http://"))

same_redirect : Option LoopbackRedirect → Option LoopbackRedirect → Bool
same_redirect none actual = false
same_redirect (some expected) none = false
same_redirect (some expected) (some actual) =
    (expected.host == actual.host) && (expected.path_and_query == actual.path_and_query)

-- A native client may present any port of the loopback address.
unfoldable pub same_native_loopback_redirect : Text → Text → Bool
unfolding same_redirect
same_native_loopback_redirect registered presented =
    same_redirect (parse_loopback_redirect registered) (parse_loopback_redirect presented)
