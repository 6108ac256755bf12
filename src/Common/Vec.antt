-- ===== src/Common/Vec.antt =====
-- `std::vector<int>`: lists of 32-bit patterns measured and indexed by native numbers.
use Prim.Native.Nat.{ℕ, zero, suc, ◌+◌, ◌≤◌, ◌<◌}
use mathlib.Core.Path.{◌≡◌, refl, ap}
use mathlib.Core.List.{List, [], ◌∷◌, ◌++◌}
use native.Mathlib.Omega.{arith}
use embed_sanitizer.Common.Runs.{Run, ok, fault, out_of_range, ◌>>=◌}
use embed_sanitizer.Common.Test.{◌==◌, if◌then◌else◌}

module _ {ℓ} {A : Type ℓ} where
  abbrev pub length : List A → ℕ
  length [] = 0
  length (x ∷ xs) = suc (length xs)

  unfoldable pub get_or : List A → ℕ → A → A
  get_or [] i d = d
  get_or (x ∷ xs) zero d = x
  get_or (x ∷ xs) (suc i) d = get_or xs i d

  unfoldable pub set : List A → ℕ → A → List A
  set [] i v = []
  set (x ∷ xs) zero v = v ∷ xs
  set (x ∷ xs) (suc i) v = x ∷ set xs i v

  -- `v[i]`: undefined at or past the end.
  unfoldable pub at : List A → ℕ → Run A
  at [] index = fault out_of_range
  at (first ∷ _) zero = ok first
  at (_ ∷ rest) (suc index) = at rest index

  -- `v[i] = x`
  unfoldable pub put : List A → ℕ → A → Run (List A)
  put [] i v = fault out_of_range
  put (x ∷ xs) zero v = ok (v ∷ xs)
  put (x ∷ xs) (suc i) v = put xs i v >>= λ ys. ok (x ∷ ys)

  pub length-append : (xs ys : List A) → length (xs ++ ys) ≡ length xs + length ys
  length-append [] ys = omega arith
  length-append (x ∷ xs) ys = omega (arith, length-append xs ys)

  pub length-set : (xs : List A) (i : ℕ) (v : A) → length (set xs i v) ≡ length xs
  unfolding set
  length-set [] i v = refl
  length-set (x ∷ xs) zero v = refl
  length-set (x ∷ xs) (suc i) v = ap suc (length-set xs i v)

  pub get_or-set :
      (xs : List A) (i j : ℕ) (v d : A)
      → i < length xs
      → get_or (set xs i v) j d ≡ (if i == j then v else get_or xs j d)
  unfolding get_or set
  get_or-set [] i j v d h = elim h [ ]
  get_or-set (x ∷ xs) zero zero v d h = refl
  get_or-set (x ∷ xs) zero (suc j) v d h = ground arith
  get_or-set (x ∷ xs) (suc i) zero v d h = ground arith
  get_or-set (x ∷ xs) (suc i) (suc j) v d h = ground (arith, get_or-set xs i j v d)

  pub at-get_or : (xs : List A) (i : ℕ) (d : A) → i < length xs → at xs i ≡ ok (get_or xs i d)
  unfolding at get_or
  at-get_or [] i d h = elim h [ ]
  at-get_or (x ∷ xs) zero d h = refl
  at-get_or (x ∷ xs) (suc i) d h = at-get_or xs i d (omega arith)

  pub at-out : (xs : List A) (i : ℕ) → length xs ≤ i → at xs i ≡ fault out_of_range
  unfolding at
  at-out [] i h = refl
  at-out (x ∷ xs) zero h = elim h [ ]
  at-out (x ∷ xs) (suc i) h = at-out xs i (omega arith)

  pub put-set : (xs : List A) (i : ℕ) (v : A) → i < length xs → put xs i v ≡ ok (set xs i v)
  unfolding put set
  put-set [] i v h = elim h [ ]
  put-set (x ∷ xs) zero v h = refl
  put-set (x ∷ xs) (suc i) v h = ground (arith, put-set xs i v)

  pub put-out : (xs : List A) (i : ℕ) (v : A) → length xs ≤ i → put xs i v ≡ fault out_of_range
  unfolding put
  put-out [] i v h = refl
  put-out (x ∷ xs) zero v h = elim h [ ]
  put-out (x ∷ xs) (suc i) v h = ground (arith, put-out xs i v)

  pub get_or-append :
      (xs : List A) (y d : A) (j : ℕ)
      → get_or (xs ++ y ∷ []) j d ≡ (if length xs == j then y else get_or xs j d)
  unfolding get_or
  get_or-append [] y d zero = refl
  get_or-append [] y d (suc j) = ground arith
  get_or-append (x ∷ xs) y d zero = ground arith
  get_or-append (x ∷ xs) y d (suc j) = ground (arith, get_or-append xs y d j)

  pub get_or-out : (xs : List A) (j : ℕ) (d : A) → length xs ≤ j → get_or xs j d ≡ d
  unfolding get_or
  get_or-out [] j d h = refl
  get_or-out (x ∷ xs) zero d h = elim h [ ]
  get_or-out (x ∷ xs) (suc j) d h = get_or-out xs j d (omega arith)
