-- ===== src/Trace/Seen.antt =====
-- The order of the accesses of a program of which only some make a callback.
use mathlib.Core.Path.{subst}
use embed_sanitizer.Common.{ℕ, ◌<◌, ◌≡◌, ◌⊎◌, ◌∙◌, refl, sym, ap, true, inl, inr, arith}
use embed_sanitizer.Trace.{Action, read, write, Event, is_race_free}
use embed_sanitizer.Trace.Faithful.{new_world}
use embed_sanitizer.Trace.Order.{
  HappensBefore, in_thread, started, handed_over, through, HappensBefore-lt, prefix, IsCounted,
}
use embed_sanitizer.Trace.Missed.{
  Conflict, write_write, read_write, write_read, races-HappensBefore,
}
use embed_sanitizer.Trace.Shadowed.{
  Shadowed, Shadowed-Conflict, Shadowed-before, Shadowed-after, written,
}
use embed_sanitizer.Trace.Racing.{race_free-calm}

-- The events of a program that make a callback, in their order.
abbrev pub thinned : (ℕ → Event) → (ℕ → ℕ) → ℕ → Event
thinned tr pos i = tr (pos i)

abbrev pub IsMonotone : (ℕ → ℕ) → Type 0
IsMonotone pos = (i j : ℕ) → i < j → pos i < pos j

-- One of the first `n` callbacks, that is made while other threads are counted as running.
abbrev pub IsCallback : (ℕ → Event) → (ℕ → ℕ) → ℕ → ℕ → ℕ → Type 0
IsCallback tr pos c n i = (i < n) × IsCounted (thinned tr pos) (new_world c) i

-- The event makes such a callback, or it is a read that the write of one shadows.
pub data IsSeen (tr : ℕ → Event) (pos : ℕ → ℕ) (c n a : ℕ) : Type 0 where
  is_kept : (i : ℕ) → IsCallback tr pos c n i → pos i ≡ a → IsSeen tr pos c n a
  is_shadowed : (i : ℕ) → IsCallback tr pos c n i → Shadowed tr a (pos i) → IsSeen tr pos c n a

trichotomy : (a b : ℕ) → (a < b) ⊎ (a ≡ b) ⊎ (b < a)
trichotomy a b = ground arith

Conflict-sym : (a b : Action) → Conflict a b → Conflict b a
Conflict-sym _ _ (write_write addr p q) = write_write addr q p
Conflict-sym _ _ (read_write addr p q) = write_read addr q p
Conflict-sym _ _ (write_read addr p q) = read_write addr q p

module _ (tr : ℕ → Event) (pos : ℕ → ℕ) (mono : IsMonotone pos) where
  -- What orders the events that make callbacks orders them in the program.
  thinned-HappensBefore :
      (i j : ℕ) → HappensBefore (thinned tr pos) i j → HappensBefore tr (pos i) (pos j)
  thinned-HappensBefore i j (in_thread lt v) = in_thread (mono i j lt) v
  thinned-HappensBefore i j (started child lt act v) = started child (mono i j lt) act v
  thinned-HappensBefore i j (handed_over m lt give take) = handed_over m (mono i j lt) give take
  thinned-HappensBefore i j (through {j = k} p q) =
      through (thinned-HappensBefore i k p) (thinned-HappensBefore k j q)

  position-lt : (i j : ℕ) → pos i < pos j → i < j
  position-lt i j lt = elim (trichotomy i j) [
    | inl h ↦ h
    | inr (inl e) ↦ absurd (let p = ap pos e in omega (arith, p, lt))
    | inr (inr h) ↦ absurd (omega (arith, mono j i h, lt))
  ]

module _ (tr : ℕ → Event) (pos : ℕ → ℕ) (mono : IsMonotone pos) (c n : ℕ)
    (free : is_race_free (prefix (thinned tr pos) n) (new_world c) ≡ true) where
  -- Without a race of the callbacks, those in conflict are ordered in the program.
  kept-HappensBefore :
      (i j : ℕ)
      → IsCallback tr pos c n i
      → IsCallback tr pos c n j
      → pos i < pos j
      → Conflict (tr (pos i)).action (tr (pos j)).action
      → HappensBefore tr (pos i) (pos j)
  kept-HappensBefore i j li lj lt conflict =
      let earlier = position-lt tr pos mono i j lt in
      thinned-HappensBefore tr pos mono i j (
        races-HappensBefore (thinned tr pos) c j i (tr (pos i)).action (tr (pos j)).action refl refl
          conflict earlier li.1 lj.1 (race_free-calm (thinned tr pos) c n j free lj.0))

  -- So it is for two events that make callbacks, wherever they stand.
  callbacks-HappensBefore :
      (a b i j : ℕ)
      → IsCallback tr pos c n i
      → IsCallback tr pos c n j
      → pos i ≡ a
      → pos j ≡ b
      → a < b
      → Conflict (tr a).action (tr b).action
      → HappensBefore tr a b
  callbacks-HappensBefore a b i j li lj ei ej =
      subst (λ z. z < b → Conflict (tr z).action (tr b).action → HappensBefore tr z b) ei
        (subst
          (λ z. pos i < z → Conflict (tr (pos i)).action (tr z).action → HappensBefore tr (pos i) z)
          ej (kept-HappensBefore i j li lj))

  pub seen-HappensBefore :
      (a b : ℕ)
      → IsSeen tr pos c n a
      → IsSeen tr pos c n b
      → a < b
      → Conflict (tr a).action (tr b).action
      → HappensBefore tr a b
  seen-HappensBefore a b (is_kept i li ei) (is_kept j lj ej) lt conflict =
      callbacks-HappensBefore a b i j li lj ei ej lt conflict
  seen-HappensBefore a b (is_shadowed i li d) (is_kept j lj ej) lt conflict =
      let with_write = Shadowed-Conflict tr a (pos i) d (tr b).action conflict in
      elim (trichotomy (pos i) b) [
        | inl past ↦
            through (Shadowed-after tr a (pos i) d)
              (callbacks-HappensBefore (pos i) b i j li lj refl ej past with_write)
        | inr (inl e) ↦ subst (HappensBefore tr a) e (Shadowed-after tr a (pos i) d)
        | inr (inr between) ↦
            elim (Shadowed-before tr a (pos i) d b (
              callbacks-HappensBefore b (pos i) j i lj li ej refl between
                (Conflict-sym (tr (pos i)).action (tr b).action with_write))) [
                  | inl reached ↦ absurd (omega (arith, HappensBefore-lt tr b a reached, lt))
                  | inr (mine, _, _) ↦ in_thread lt (inl mine)
                ]
      ]
  seen-HappensBefore a b (is_kept i li ei) (is_shadowed j lj d) lt conflict =
      let with_write =
        Shadowed-Conflict tr b (pos j) d (tr a).action
          (Conflict-sym (tr a).action (tr b).action conflict) in
      elim (Shadowed-before tr b (pos j) d a (
        callbacks-HappensBefore a (pos j) i j li lj ei refl (omega (arith, lt, d.later))
          (Conflict-sym (tr (pos j)).action (tr a).action with_write))) [
            | inl reached ↦ reached
            | inr (_, from, _) ↦ absurd (omega (arith, from, lt))
          ]
  seen-HappensBefore a b (is_shadowed i li d) (is_shadowed j lj f) lt conflict =
      let (q, h) = written (tr a).action (tr b).action d.addr d.read_at conflict d.reading in
      let both : read f.addr f.read_at ≡ write d.addr q = sym f.reading ∙ h in
      absurd (let z = both in cc)
