-- ===== src/Trace/Handed.antt =====
-- In a program that keeps to its locks, what happened before an event is in the sets that its thread has then.
use mathlib.Core.Path.{subst}
use embed_sanitizer.Common.{
  ℕ, suc, ◌<◌, ◌≡◌, ◌≢◌, refl, sym, ap, Bool, true, false, ◌||◌, Bool-cases, inl, inr, ◌==◌, eqb→eq,
  eqb_refl,
}
use embed_sanitizer.Trace.{
  Action, read, write, lock, unlock, create, join, Event, World, at_key, either, accessed, happen,
  happen_all,
}
use embed_sanitizer.Trace.Faithful.{new_world}
use embed_sanitizer.Trace.Order.{prefix, happen_all-snoc}

-- The world before the event at position `n`.
abbrev pub world : (ℕ → Event) → ℕ → ℕ → World
world tr c n = happen_all (prefix tr n) (new_world c)

pub world-suc :
    (tr : ℕ → Event) (c n : ℕ)
    → world tr c (suc n) ≡ happen (tr n).self (tr n).action (world tr c n)
unfolding prefix
world-suc tr c n = happen_all-snoc (prefix tr n) (tr n) (new_world c)

-- Every unlocking is by a thread that took the lock, since when no thread has given it back.
pub record Locked (tr : ℕ → Event) (m p : ℕ) : Type 0 where
  pub since : ℕ
  pub before : since < p
  pub taken : (tr since).action ≡ lock m
  pub same : (tr since).self ≡ (tr p).self
  pub held : (j : ℕ) → since < j → j < p → (tr j).action ≢ unlock m

abbrev pub IsLocking : (ℕ → Event) → Type 0
IsLocking tr = (m p : ℕ) → (tr p).action ≡ unlock m → Locked tr m p

pub grows :
    (self k a : ℕ) (known : ℕ → ℕ → Bool) (f : ℕ → Bool)
    → known k a ≡ true
    → at_key self (either (known self) f) known k a ≡ true
grows self k a known f h = elim (Bool-cases (self == k)) [
  | inr other ↦ rw other h
  | inl same ↦
      let e : known self a ≡ true = subst (λ z. known z a ≡ true) (sym (eqb→eq self k same)) h in
      rw (same, e) refl
]

pub gains :
    (self a : ℕ) (known : ℕ → ℕ → Bool) (f : ℕ → Bool)
    → f a ≡ true
    → at_key self (either (known self) f) known self a ≡ true
gains self a known f h = rw (eqb_refl self, h) (or_true (known self a))
  where
    or_true : (b : Bool) → (b || true) ≡ true
    or_true true = refl
    or_true false = refl

pub accessed_grows :
    (self k a : ℕ) (w : World) → w.known k a ≡ true → (accessed self w).known k a ≡ true
accessed_grows self k a w h = elim (Bool-cases (self == k)) [
  | inr other ↦ rw other h
  | inl same ↦
      let e : w.known self a ≡ true =
        subst (λ z. w.known z a ≡ true) (sym (eqb→eq self k same)) h in
      elim (Bool-cases (w.next == a)) [
        | inl now ↦ rw (same, now) refl
        | inr past ↦ rw (same, past) e
      ]
]

pub happen_grows :
    (self k a : ℕ) (act : Action) (w : World)
    → w.known k a ≡ true
    → (happen self act w).known k a ≡ true
unfolding happen
happen_grows self k a (read addr p) w h = elim (Bool-cases (w.running == 0)) [
  | inl alone ↦ rw alone h
  | inr several ↦ rw several (accessed_grows self k a w h)
]
happen_grows self k a (write addr p) w h = elim (Bool-cases (w.running == 0)) [
  | inl alone ↦ rw alone h
  | inr several ↦ rw several (accessed_grows self k a w h)
]
happen_grows self k a (lock addr) w h = grows self k a w.known (w.handed addr) h
happen_grows self k a (unlock addr) w h = h
happen_grows self k a (create child) w h = grows child k a w.known (w.known self) h
happen_grows self k a (join child) w h = grows self k a w.known (w.known child) h

-- What a lock hands on changes when it is given back alone.
pub happen_hands :
    (self m a : ℕ) (act : Action) (w : World)
    → act ≢ unlock m
    → (happen self act w).handed m a ≡ w.handed m a
unfolding happen
happen_hands self m a (read addr p) w ne = elim (Bool-cases (w.running == 0)) [
  | inl alone ↦ rw alone refl
  | inr several ↦ rw several refl
]
happen_hands self m a (write addr p) w ne = elim (Bool-cases (w.running == 0)) [
  | inl alone ↦ rw alone refl
  | inr several ↦ rw several refl
]
happen_hands self m a (lock addr) w ne = refl
happen_hands self m a (create child) w ne = refl
happen_hands self m a (join child) w ne = refl
happen_hands self m a (unlock addr) w ne = elim (Bool-cases (addr == m)) [
  | inl same ↦ absurd (ne (ap unlock (eqb→eq addr m same)))
  | inr other ↦ rw other refl
]
