-- ===== src/Trace/Order.antt =====
-- The order of events by the program itself: what one thread does, what is handed over by a lock, by a start
-- and by a wait. `tr` gives the event at each position.
use mathlib.Core.Path.{subst}
use embed_sanitizer.Common.{
  ℕ, zero, suc, ◌≤◌, ◌<◌, ◌≡◌, ◌⊎◌, refl, Bool, true, false, Bool-cases, inl, inr, List, [], ◌∷◌,
  ◌++◌, arith, ◌==◌, eqb→eq,
}
use embed_sanitizer.Trace.{
  Place, read, write, lock, unlock, create, join, Event, World, at_key, either, happen, happen_all,
}

-- The event is the thread's own, or it waits for the thread's end.
abbrev pub Involves : (ℕ → Event) → ℕ → ℕ → Type 0
Involves tr k j = ((tr j).self ≡ k) ⊎ ((tr j).action ≡ join k)

pub data HappensBefore (tr : ℕ → Event) : ℕ → ℕ → Type 0 where
  in_thread : {i j : ℕ} → i < j → Involves tr (tr i).self j → HappensBefore tr i j
  started :
      {i j : ℕ} (child : ℕ)
      → i < j
      → (tr i).action ≡ create child
      → Involves tr child j
      → HappensBefore tr i j
  handed_over :
      {i j : ℕ} (addr : ℕ)
      → i < j
      → (tr i).action ≡ unlock addr
      → (tr j).action ≡ lock addr
      → HappensBefore tr i j
  through : {i j k : ℕ} → HappensBefore tr i j → HappensBefore tr j k → HappensBefore tr i k

pub HappensBefore-lt : (tr : ℕ → Event) (i j : ℕ) → HappensBefore tr i j → i < j
HappensBefore-lt tr i j (in_thread lt v) = lt
HappensBefore-lt tr i j (started c lt a v) = lt
HappensBefore-lt tr i j (handed_over m lt a b) = lt
HappensBefore-lt tr i j (through {j = k} p q) =
    omega (arith, HappensBefore-lt tr i k p, HappensBefore-lt tr k j q)

-- The first `n` events.
unfoldable pub prefix : (ℕ → Event) → ℕ → List Event
prefix tr zero = []
prefix tr (suc n) = prefix tr n ++ tr n ∷ []

pub happen_all-snoc :
    (es : List Event) (e : Event) (w : World)
    → happen_all (es ++ e ∷ []) w ≡ happen e.self e.action (happen_all es w)
unfolding happen_all
happen_all-snoc [] e w = refl
happen_all-snoc (d ∷ es) e w = happen_all-snoc es e (happen d.self d.action w)

-- An access that is counted among those of the world.
abbrev pub IsCounted : (ℕ → Event) → World → ℕ → Type 0
IsCounted tr w i = ((happen_all (prefix tr i) w).running == 0) ≡ false

abbrev pub IsIn : ℕ → List ℕ → Type 0
IsIn a [] = ⊥
IsIn a (b ∷ l) = (a ≡ b) ⊎ IsIn a l

-- The world after `n` events against the order: `place` gives the position of each access.
pub record Ordered (tr : ℕ → Event) (start : World) (n : ℕ) (w : World) (place : ℕ → ℕ)
    : Type 0 where
  pub known :
      (k a j : ℕ) → w.known k a ≡ true → n ≤ j → Involves tr k j → HappensBefore tr (place a) j
  pub handed :
      (m a j : ℕ)
      → w.handed m a ≡ true
      → n ≤ j
      → (tr j).action ≡ lock m
      → HappensBefore tr (place a) j
  pub known_past : (k a : ℕ) → w.known k a ≡ true → a < w.next
  pub handed_past : (m a : ℕ) → w.handed m a ≡ true → a < w.next
  pub reads :
      (i addr : ℕ) (p : Place)
      → i < n
      → (tr i).action ≡ read addr p
      → IsCounted tr start i
      → (a : ℕ) × (a < w.next) × IsIn a (w.reads addr) × (place a ≡ i)
  pub writes :
      (i addr : ℕ) (p : Place)
      → i < n
      → (tr i).action ≡ write addr p
      → IsCounted tr start i
      → (a : ℕ) × (a < w.next) × IsIn a (w.writes addr) × (place a ≡ i)

-- A set that grows by another.
pub grown :
    (self k a : ℕ) (known : ℕ → ℕ → Bool) (f : ℕ → Bool)
    → at_key self (either (known self) f) known k a ≡ true
    → (known k a ≡ true) ⊎ ((self ≡ k) × (f a ≡ true))
grown self k a known f h = elim (Bool-cases (self == k)) [
  | inr other ↦ inl (rw other at h)
  | inl same ↦
      let e = eqb→eq self k same in
      elim (Bool-cases (known self a)) [
        | inl y ↦ inl (subst (λ z. known z a ≡ true) e y)
        | inr y ↦ inr (e, (rw (same, y) at h))
      ]
]
