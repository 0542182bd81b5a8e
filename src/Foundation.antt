-- ===== src/Foundation.antt =====
-- src/foundation: error codes with their HTTP status, results, and time.
-- An error is its code: the message and the internal detail are texts that nothing branches on.
-- An `Instant` is the number of milliseconds since the epoch, and a `Duration` a number of
-- milliseconds in which 0 stands for every duration that is not positive.
pub mod Exec
pub mod Encoding
pub mod Base64
use openproof.Base.{◌≡◌, refl, ◌⊎◌, inl, inr, ℕ, Bool, true, false}

pub data ErrorCode : Type 0 where
  unknown invalid_argument failed_precondition not_found already_exists conflict : ErrorCode
  authentication_required authentication_failed permission_denied : ErrorCode
  assurance_insufficient rate_limited timeout unavailable not_implemented internal : ErrorCode

unfoldable pub error_http_status : ErrorCode → ℕ
error_http_status invalid_argument = 400
error_http_status authentication_required = 401
error_http_status authentication_failed = 401
error_http_status permission_denied = 403
error_http_status assurance_insufficient = 403
error_http_status not_found = 404
error_http_status conflict = 409
error_http_status already_exists = 409
error_http_status failed_precondition = 412
error_http_status rate_limited = 429
error_http_status not_implemented = 501
error_http_status unavailable = 503
error_http_status timeout = 504
error_http_status unknown = 500
error_http_status internal = 500

pub data Result {ℓ} (A : Type ℓ) : Type ℓ where
  ok : A → Result A
  fail : ErrorCode → Result A

-- The result of an operation that returns nothing.
abbrev pub Status : Type 0
Status = Result (Unit {0})

-- `if (!r.has_value()) return fail(r.error());`
infixl 5 ◌>>=◌ ◌>>◌
abbrev pub ◌>>=◌ {ℓ κ} : {A : Type ℓ} {B : Type κ} → Result A → (A → Result B) → Result B
ok a >>= f = f a
fail e >>= f = fail e

abbrev pub ◌>>◌ {ℓ} : {B : Type ℓ} → Status → Result B → Result B
m >> k = m >>= λ _. k

-- `if (refused) return fail(e);`
abbrev pub refuse_if : Bool → ErrorCode → Status
refuse_if true e = fail e
refuse_if false e = ok tt

abbrev pub succeeded {ℓ} : {A : Type ℓ} → Result A → Bool
succeeded (ok a) = true
succeeded (fail e) = false

abbrev pub Instant : Type 0
Instant = ℕ

abbrev pub Duration : Type 0
Duration = ℕ

pub Result-cases {ℓ} :
    {A : Type ℓ} (r : Result A) → ((a : A) × (r ≡ ok a)) ⊎ ((e : ErrorCode) × (r ≡ fail e))
Result-cases (ok a) = inl (a, refl)
Result-cases (fail e) = inr (e, refl)
