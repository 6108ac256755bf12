-- ===== src/Trace/Ordered.antt =====
-- The sets of a world hold only what happened before.
use mathlib.Core.Path.{subst}
use embed_sanitizer.Common.{
  ℕ, suc, ◌+◌, ◌-◌, ◌<◌, ◌≡◌, ◌⊎◌, ◌∙◌, refl, sym, ap, Bool, true, false, Bool-cases, inl, inr,
  arith, ◌==◌, eqb→eq, eqb→ne,
}
use embed_sanitizer.Clock.{u32}
use embed_sanitizer.Trace.{
  Action, read, write, lock, unlock, create, join, Event, World, at_key, happen, happen_all,
}
use embed_sanitizer.Trace.Order.{
  Involves, HappensBefore, in_thread, started, handed_over, through, prefix, IsCounted, Ordered,
  grown,
}

module _ (tr : ℕ → Event) (start : World) (n : ℕ) (w : World) (place : ℕ → ℕ)
    (o : Ordered tr start n w place) where
  abbrev self : ℕ
  self = (tr n).self

  -- What is known newly of an access: it happened before this event, which happens before `reach`.
  abbrev Gains : ℕ → (ℕ → Type 0) → Type 0
  Gains a reach =
      (a < w.next)
      × HappensBefore tr (place a) n
      × ((j : ℕ) → n < j → reach j → HappensBefore tr n j)

  abbrev is_access : Action → Bool
  is_access (read addr p) = true
  is_access (write addr p) = true
  is_access _ = false

  -- The event is no access.
  moved-Ordered :
      (known' handed' : ℕ → ℕ → Bool) (running : ℕ)
      → is_access (tr n).action ≡ false
      → ((k a : ℕ) → known' k a ≡ true → (w.known k a ≡ true) ⊎ Gains a (Involves tr k))
      → ((m a : ℕ)
          → handed' m a ≡ true
          → (w.handed m a ≡ true) ⊎ Gains a (λ j. (tr j).action ≡ lock m))
      → Ordered tr start
          (suc n)
          (record w { known = known'; handed = handed'; running = running })
          place
  moved-Ordered known' handed' running none kn hd = record {
    known = λ k a j h le v. elim (kn k a h) [
      | inl old ↦ o.known k a j old (omega arith) v
      | inr (lt, before, after) ↦ through before (after j (omega arith) v)
    ];
    handed = λ m a j h le v. elim (hd m a h) [
      | inl old ↦ o.handed m a j old (omega arith) v
      | inr (lt, before, after) ↦ through before (after j (omega arith) v)
    ];
    known_past = λ k a h. elim (kn k a h) [ inl old ↦ o.known_past k a old | inr g ↦ g.0 ];
    handed_past = λ m a h. elim (hd m a h) [ inl old ↦ o.handed_past m a old | inr g ↦ g.0 ];
    reads = λ i addr p lt act c. o.reads i addr p (earlier i lt (sym (ap is_access act))) act c;
    writes = λ i addr p lt act c. o.writes i addr p (earlier i lt (sym (ap is_access act))) act c;
  }
    where
      earlier : (i : ℕ) → i < suc n → true ≡ is_access (tr i).action → i < n
      earlier i lt is = elim (Bool-cases (i == n)) [
        | inr other ↦ omega (arith, eqb→ne i n other)
        | inl same ↦
            absurd (let z : is_access (tr i).action ≡ false = rw (eqb→eq i n same) none in cc)
      ]

  unchanged :
      (m a : ℕ)
      → w.handed m a ≡ true
      → (w.handed m a ≡ true) ⊎ Gains a (λ j. (tr j).action ≡ lock m)
  unchanged m a h = inl h

  -- What the thread of this event knows, happened before the event.
  mine : (a : ℕ) → w.known self a ≡ true → HappensBefore tr (place a) n
  mine a h = o.known self a n h (omega arith) (inl refl)

  pub goes_on : (k j : ℕ) → self ≡ k → n < j → Involves tr k j → HappensBefore tr n j
  goes_on k j e lt v = in_thread lt (subst (λ z. Involves tr z j) (sym e) v)

  pub lock-Ordered :
      (m : ℕ) → (tr n).action ≡ lock m → Ordered tr start (suc n) (happen self (lock m) w) place
  unfolding happen
  lock-Ordered m act =
      moved-Ordered _ _ w.running (rw act refl)
        (λ k a h. elim (grown self k a w.known (w.handed m) h) [
          | inl old ↦ inl old
          | inr (e, got) ↦ inr (
            o.handed_past m a got,
            o.handed m a n got (omega arith) act,
            λ j lt v. goes_on k j e lt v,
          )
        ])
        unchanged

  pub unlock-Ordered :
      (m : ℕ) → (tr n).action ≡ unlock m → Ordered tr start (suc n) (happen self (unlock m) w) place
  unfolding happen
  unlock-Ordered m act = moved-Ordered _ _ w.running (rw act refl) (λ k a h. inl h) given
    where
      given :
          (j a : ℕ)
          → at_key m (w.known self) w.handed j a ≡ true
          → (w.handed j a ≡ true) ⊎ Gains a (λ i. (tr i).action ≡ lock j)
      given j a h = elim (Bool-cases (m == j)) [
        | inr other ↦ inl (rw other at h)
        | inl same ↦
            let k : w.known self a ≡ true = rw same at h in
            inr (
              o.known_past self a k,
              mine a k,
              λ i lt v.
                  handed_over m lt act
                    (subst (λ z. (tr i).action ≡ lock z) (sym (eqb→eq m j same)) v),
            )
      ]

  pub create-Ordered :
      (c : ℕ) → (tr n).action ≡ create c → Ordered tr start (suc n) (happen self (create c) w) place
  unfolding happen
  create-Ordered c act =
      moved-Ordered _ _ (u32 (w.running + 1)) (rw act refl)
        (λ k a h. elim (grown c k a w.known (w.known self) h) [
          | inl old ↦ inl old
          | inr (e, got) ↦ inr (
            o.known_past self a got,
            mine a got,
            λ j lt v. started c lt act (subst (λ z. Involves tr z j) (sym e) v),
          )
        ])
        unchanged

  pub join-Ordered :
      (c : ℕ) → (tr n).action ≡ join c → Ordered tr start (suc n) (happen self (join c) w) place
  unfolding happen
  join-Ordered c act =
      moved-Ordered _ _ (w.running - 1) (rw act refl)
        (λ k a h. elim (grown self k a w.known (w.known c) h) [
          | inl old ↦ inl old
          | inr (e, got) ↦ inr (
            o.known_past c a got,
            o.known c a n got (omega arith) (inr act),
            λ j lt v. goes_on k j e lt v,
          )
        ])
        unchanged

  -- An access that is not counted leaves the world as it is.
  pub ignored-Ordered :
      (happen_all (prefix tr n) start ≡ w)
      → (w.running == 0) ≡ true
      → Ordered tr start (suc n) w place
  ignored-Ordered here alone = record {
    known = λ k a j h le v. o.known k a j h (omega arith) v;
    handed = λ m a j h le v. o.handed m a j h (omega arith) v;
    known_past = o.known_past;
    handed_past = o.handed_past;
    reads = λ i addr p lt act c. o.reads i addr p (earlier i lt c) act c;
    writes = λ i addr p lt act c. o.writes i addr p (earlier i lt c) act c;
  }
    where
      earlier : (i : ℕ) → i < suc n → IsCounted tr start i → i < n
      earlier i lt c = elim (Bool-cases (i == n)) [
        | inr other ↦ omega (arith, eqb→ne i n other)
        | inl same ↦
            let z : (w.running == 0) ≡ false =
              subst (λ v. (v.running == 0) ≡ false) here (rw (eqb→eq i n same) at c) in
            absurd (let q : true ≡ false = sym alone ∙ z in cc)
      ]
