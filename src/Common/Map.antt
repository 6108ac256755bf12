-- ===== src/Common/Map.antt =====
-- `std::unordered_map` with a number for its key, as an association list.
use Prim.Native.Nat.{ℕ}
use mathlib.Core.Path.{◌≡◌, refl}
use mathlib.Core.List.{List, [], ◌∷◌}
use mathlib.Core.Option.{Option, none, some}
use native.Mathlib.Omega.{arith}
use embed_sanitizer.Common.Test.{◌==◌, if◌then◌else◌, Bool-cases, eqb→eq, eqb→ne, some-inj}
use mathlib.Core.Logic.{◌⊎◌, ◌≢◌, inl, inr}

module _ {ℓ} {V : Type ℓ} where
  unfoldable pub lookup : ℕ → List (ℕ × V) → Option V
  lookup key [] = none
  lookup key ((j, v) ∷ rest) = if j == key then some v else lookup key rest

  unfoldable pub insert : ℕ → V → List (ℕ × V) → List (ℕ × V)
  insert key v [] = (key, v) ∷ []
  insert key v ((j, w) ∷ rest) = if j == key then (key, v) ∷ rest else (j, w) ∷ insert key v rest

  -- The entry under `other` once `key` has been set.
  pub lookup-insert :
      (key other : ℕ) (new : V) (entries : List (ℕ × V))
      → lookup other (insert key new entries)
        ≡ (if key == other then some new else lookup other entries)
  unfolding lookup insert
  lookup-insert key other new [] = refl
  lookup-insert key other new (_ ∷ rest) =
      let tail = lookup-insert key other new rest in ground (arith, tail)

  -- What a table holds after an entry has been set: that entry, or an old one under another key.
  pub lookup-insert_cases :
      (k j : ℕ) (v w : V) (m : List (ℕ × V))
      → lookup j (insert k v m) ≡ some w
      → ((k ≡ j) × (v ≡ w)) ⊎ ((k ≢ j) × (lookup j m ≡ some w))
  lookup-insert_cases k j v w m h = elim (Bool-cases (k == j)) [
    | inl same ↦ inl (eqb→eq k j same, some-inj (rw (lookup-insert k j v m, same) at h))
    | inr other ↦ inr (eqb→ne k j other, rw (lookup-insert k j v m, other) at h)
  ]

  -- Setting an entry removes no other.
  pub lookup-insert-some :
      (k j : ℕ) (v w : V) (m : List (ℕ × V))
      → lookup j m ≡ some w
      → (w' : V) × (lookup j (insert k v m) ≡ some w')
  lookup-insert-some k j v w m h = elim (Bool-cases (k == j)) [
    | inl same ↦ (v, rw (lookup-insert k j v m, same))
    | inr other ↦ (w, rw (lookup-insert k j v m, other) h)
  ]

  pub lookup-insert_self : (k : ℕ) (v : V) (m : List (ℕ × V)) → lookup k (insert k v m) ≡ some v
  lookup-insert_self k v m = ground (arith, lookup-insert k k v m)

  pub lookup-insert_other :
      (k j : ℕ) (v : V) (m : List (ℕ × V)) → k ≢ j → lookup j (insert k v m) ≡ lookup j m
  lookup-insert_other k j v m ne = ground (arith, lookup-insert k j v m)
