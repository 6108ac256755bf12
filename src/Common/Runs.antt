-- ===== src/Common/Runs.antt =====
-- Runs of C++ code that may meet undefined behaviour: a value, or the first fault.
use mathlib.Core.Path.{◌≡◌}
use mathlib.Core.Bool.{Bool, true, false}

-- `out_of_range` is an index at or past the size of a `std::vector`, `overflow` a signed overflow,
-- `failed_assert` an `assert` that does not hold, or a mark for code that is not to be reached.
pub data Fault : Type 0 where
  out_of_range overflow failed_assert : Fault

pub data Run {ℓ} (A : Type ℓ) : Type ℓ where
  fault : Fault → Run A
  ok : A → Run A

infixl 5 ◌>>=◌
abbrev pub ◌>>=◌ {ℓ κ} : {A : Type ℓ} {B : Type κ} → Run A → (A → Run B) → Run B
fault e >>= next = fault e
ok a >>= next = next a

abbrev pub guard {ℓ} : {A : Type ℓ} → Bool → Fault → Run A → Run A
guard true e k = k
guard false e k = fault e

-- The run ends normally, in a value that satisfies `P`.
abbrev pub Returns {ℓ κ} : {Result : Type ℓ} → Run Result → (Result → Type κ) → Type (ℓ ⊔ κ)
Returns {Result} run P = (result : Result) × (run ≡ ok result) × P result

-- If the run ends normally, its value satisfies `P`.
abbrev pub IfOk {ℓ κ} : {A : Type ℓ} → Run A → (A → Type κ) → Type κ
IfOk (fault e) P = Unit
IfOk (ok a) P = P a

pub IfOk-bind {ℓ κ λ' μ} :
    {A : Type ℓ} {B : Type κ} (P : A → Type λ') (Q : B → Type μ) (m : Run A) (f : A → Run B)
    → IfOk m P
    → ((a : A) → P a → IfOk (f a) Q)
    → IfOk (m >>= f) Q
IfOk-bind P Q (fault e) f h next = tt
IfOk-bind P Q (ok a) f h next = next a h

-- Nothing of the first value is needed.
pub IfOk-next {ℓ κ μ} :
    {A : Type ℓ} {B : Type κ} (Q : B → Type μ) (m : Run A) (f : A → Run B)
    → ((a : A) → IfOk (f a) Q)
    → IfOk (m >>= f) Q
IfOk-next Q (fault e) f next = tt
IfOk-next Q (ok a) f next = next a
