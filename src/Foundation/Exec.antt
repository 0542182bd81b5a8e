-- ===== src/Foundation/Exec.antt =====
-- Methods that change an object and may fail: the state comes back beside the error too.
use openproof.Base.{Option, none, some}
use openproof.Foundation.{ErrorCode, Result, ok, fail}

abbrev pub Exec {ℓ κ} : Type ℓ → Type κ → Type (ℓ ⊔ κ)
Exec S A = S → S × Result A

module _ {ℓ κ} {S : Type ℓ} {A : Type κ} where
  abbrev pub pure : A → Exec S A
  pure a s = (s, ok a)

  abbrev pub raise : ErrorCode → Exec S A
  raise e s = (s, fail e)

  abbrev pub lift : Result A → Exec S A
  lift r s = (s, r)

  abbrev optional : S × Result A → S × Result (Option A)
  optional (s, ok a) = (s, ok (some a))
  optional (s, fail e) = (s, ok none)

  -- The value of an action whose failure is looked at and dropped.
  abbrev pub attempt : Exec S A → Exec S (Option A)
  attempt m s = optional (m s)

  abbrev reified : S × Result A → S × Result (Result A)
  reified (s, r) = (s, ok r)

  -- The result of an action as a value, its error included.
  abbrev pub reify : Exec S A → Exec S (Result A)
  reify m s = reified (m s)

module _ {ℓ κ μ} {S : Type ℓ} {A : Type κ} {B : Type μ} where
  abbrev continue : S × Result A → (A → Exec S B) → S × Result B
  continue (s, ok a) f = f a s
  continue (s, fail e) f = (s, fail e)

  infixl 5 ◌>>=◌
  abbrev pub ◌>>=◌ : Exec S A → (A → Exec S B) → Exec S B
  ◌>>=◌ m f s = continue (m s) f

module _ {ℓ κ μ} {S : Type ℓ} {A : Type κ} {B : Type μ} where
  infixl 5 ◌>>◌
  abbrev pub ◌>>◌ : Exec S A → Exec S B → Exec S B
  m >> n = m >>= λ _. n
