-- ===== src/Application/Model.antt =====
-- src/application/model.cpp: an application and its status. A method that changes the application
-- returns it beside the status.
use openproof.Base.{
  ℕ, Bool, true, false, not, ◌&&◌, ◌||◌, [], ◌∷◌, Text, ltb, leb, eqb, is_empty, length, any_of,
  if◌then◌else◌,
}
use openproof.Foundation.{
  Result, ok, fail, Status, Instant, ◌>>=◌, invalid_argument, failed_precondition, internal,
}

pub data Environment : Type 0 where
  development staging production : Environment

pub data ApplicationStatus : Type 0 where
  active suspended revoked : ApplicationStatus

is_separator : ℕ → Bool
is_separator c = eqb c b'-' || eqb c b'.'

is_letter : ℕ → Bool
is_letter c = leb b'a' c && leb c b'z'

-- The loop over the symbols, with `previousSeparator`.
valid_symbols : Bool → Text → Bool
unfolding is_separator is_letter
valid_symbols previous_separator [] = true
valid_symbols previous_separator (c ∷ cs) =
    let rest = valid_symbols (is_separator c) cs in
    if not (is_letter c) && not (leb b'0' c && leb c b'9') && not (is_separator c)
    then false
    else if is_separator c && previous_separator
    then false
    else rest

ends_in_separator : Text → Bool
unfolding is_separator
ends_in_separator [] = false
ends_in_separator (c ∷ []) = is_separator c
ends_in_separator (c ∷ d ∷ cs) = ends_in_separator (d ∷ cs)

starts_with_letter : Text → Bool
unfolding is_letter
starts_with_letter [] = false
starts_with_letter (c ∷ cs) = is_letter c

unfoldable pub valid_identifier : Text → Bool
unfolding starts_with_letter ends_in_separator valid_symbols
valid_identifier value =
    if ltb (length value) 2 || ltb 64 (length value)
    then false
    else if not (starts_with_letter value)
    then false
    else if ends_in_separator value
    then false
    else valid_symbols false value

unfoldable pub valid_display_name : Text → Bool
valid_display_name value =
    if is_empty value || ltb 120 (length value)
    then false
    else not (any_of (λ byte. ltb byte 32 || eqb byte 127) value)

unfoldable pub permits_authorization : ApplicationStatus → Bool
permits_authorization active = true
permits_authorization suspended = false
permits_authorization revoked = false

pub record Application : Type 0 where
  pub id : Text
  pub owner : Text
  pub identifier : Text
  pub display_name : Text
  pub environment : Environment
  pub status : ApplicationStatus
  pub created_at : Instant
  pub updated_at : Instant

unfoldable pub create : Text → Text → Text → Text → Environment → Instant → Result Application
create id owner identifier display_name environment created_at =
    if is_empty id
      || is_empty owner
      || not (valid_identifier identifier)
      || not (valid_display_name display_name)
    then fail invalid_argument
    else ok (record {
      id = id;
      owner = owner;
      identifier = identifier;
      display_name = display_name;
      environment = environment;
      status = active;
      created_at = created_at;
      updated_at = created_at;
    })

restored : ApplicationStatus → Instant → Instant → Application → Result Application
restored status created_at updated_at a =
    if ltb updated_at created_at
    then fail internal
    else ok (record a { status = status; updated_at = updated_at })

unfoldable pub restore :
    Text
    → Text
    → Text
    → Text
    → Environment
    → ApplicationStatus
    → Instant
    → Instant
    → Result Application
unfolding restored
restore id owner identifier display_name environment status created_at updated_at =
    create id owner identifier display_name environment created_at >>= λ a.
    restored status created_at updated_at a

abbrev pub is_active : ApplicationStatus → Bool
is_active active = true
is_active suspended = false
is_active revoked = false

abbrev pub is_suspended : ApplicationStatus → Bool
is_suspended active = false
is_suspended suspended = true
is_suspended revoked = false

abbrev pub is_revoked : ApplicationStatus → Bool
is_revoked active = false
is_revoked suspended = false
is_revoked revoked = true

unfoldable pub suspend : Application → Instant → Application × Status
suspend a now =
    if is_revoked a.status
    then (a, fail failed_precondition)
    else if not (is_active a.status) || ltb now a.updated_at
    then (a, fail failed_precondition)
    else (record a { status = suspended; updated_at = now }, ok tt)

unfoldable pub activate : Application → Instant → Application × Status
activate a now =
    if is_revoked a.status
    then (a, fail failed_precondition)
    else if not (is_suspended a.status) || ltb now a.updated_at
    then (a, fail failed_precondition)
    else (record a { status = active; updated_at = now }, ok tt)

unfoldable pub revoke : Application → Instant → Application × Status
revoke a now =
    if is_revoked a.status || ltb now a.updated_at
    then (a, fail failed_precondition)
    else (record a { status = revoked; updated_at = now }, ok tt)

unfoldable pub rename : Application → Text → Instant → Application × Status
rename a display_name now =
    if is_revoked a.status || ltb now a.updated_at || not (valid_display_name display_name)
    then (a, fail failed_precondition)
    else (record a { display_name = display_name; updated_at = now }, ok tt)
