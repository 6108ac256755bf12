-- ===== src/Trace/Paced.antt =====
-- What programs need of their threads: that they are registered, and have epochs left.
use mathlib.Core.Path.{subst}
use embed_sanitizer.Common.{
  ℕ, ◌+◌, ◌*◌, ◌^◌, ◌≤◌, ◌<◌, ◌≡◌, ◌≢◌, ◌∙◌, refl, sym, ap, Bool, false, Bool-cases, inl, inr, some,
  lookup, arith, ◌==◌, Run, Returns,
}
use embed_sanitizer.State.{ThreadState, State}
use embed_sanitizer.Interface.Synced.{Synced}
use embed_sanitizer.Interface.Memory.{touched-IsSystem, touched-Tracks}
use embed_sanitizer.Trace.{Action, create, join, at_key}

abbrev pub Registered : State → ℕ → Type 0
Registered s k = (t : ThreadState) × (lookup k s.threads ≡ some t)

-- The threads that an action is about are registered.
abbrev pub IsPlayable : State → ℕ → Action → Type 0
IsPlayable s self (create child) = Registered s self × Registered s child × (self ≢ child)
IsPlayable s self (join child) = Registered s self × Registered s child × (self ≢ child)
IsPlayable s self _ = Registered s self

-- Every thread can enter `n` more epochs.
abbrev pub HasTime : State → ℕ → Type 0
HasTime s n =
    (k : ℕ) (t : ThreadState) → lookup k s.threads ≡ some t → t.epoch + n < t.tid * 2 ^ 24 + 2 ^ 24

-- Threads stay registered, and each enters one more epoch at most.
pub record Paced (s s' : State) : Type 0 where
  pub registered : (k : ℕ) → Registered s k → Registered s' k
  pub epochs :
      (k : ℕ) (t' : ThreadState)
      → lookup k s'.threads ≡ some t'
      → (t : ThreadState) × (lookup k s.threads ≡ some t)
        × (t'.tid ≡ t.tid)
        × (t'.epoch ≤ t.epoch + 1)

pub same-Paced : (s s' : State) → s'.threads ≡ s.threads → Paced s s'
same-Paced s s' e = record {
  registered = λ k (t, f). (t, ap (lookup k) e ∙ f);
  epochs = λ k t f. (t, ap (lookup k) (sym e) ∙ f, refl, omega arith);
}

pub Synced-Paced : (s s' : State) → Synced s s' → Paced s s'
Synced-Paced s s' y = record {
  registered = λ k (t, f). y.known k t f;
  epochs = λ k t f. y.paced k t f;
}

-- Both views hand over the same knowledge, and nothing of accesses to come.
pub at_key_same :
    (j : ℕ) (f g : ℕ → Bool) (m n : ℕ → ℕ → Bool) (k a e : ℕ)
    → f a ≡ g e
    → m k a ≡ n k e
    → at_key j f m k a ≡ at_key j g n k e
at_key_same j f g m n k a e p q = elim (Bool-cases (j == k)) [
  | inl y ↦ rw (y, p) refl
  | inr y ↦ rw (y, q) refl
]

pub at_key_none :
    (j : ℕ) (f : ℕ → Bool) (m : ℕ → ℕ → Bool) (k a : ℕ)
    → f a ≡ false
    → m k a ≡ false
    → at_key j f m k a ≡ false
at_key_none j f m k a p q = elim (Bool-cases (j == k)) [
  | inl y ↦ rw (y, p) refl
  | inr y ↦ rw (y, q) refl
]

-- Two things that a run ends in.
pub both {ℓ} :
    {A : Type 0} (m : Run A) (P : A → Type ℓ) (Q : A → Type 0)
    → Returns m P
    → Returns m Q
    → Returns m (λ a. P a × Q a)
both m P Q (a, e, p) (b, f, q) =
    let same : b ≡ a = let g = sym f ∙ e in cc in (a, e, (p, subst Q same q))

-- What is kept does not depend on the count of running threads.
pub recounted : (s s' : State) (c : ℕ) → Synced s s' → Synced s (record s' { is_concurrent = c })
recounted s s' c y = record {
  system = touched-IsSystem s' s'.vstates s'.reads s'.writes c y.system;
  tracks =
      λ x h tr. touched-Tracks s' s'.vstates s'.reads s'.writes c x h y.system (y.tracks x h tr);
  vstates = y.vstates;
  num = y.num;
  counters = y.counters;
  known = y.known;
  paced = y.paced;
}
