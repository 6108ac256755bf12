-- ===== src/Trace/Accessed.antt =====
-- An access gets the epoch of its thread for a stamp, which that thread alone knows.
use embed_sanitizer.Common.{
  ℕ, suc, ◌<◌, ◌≡◌, ◌≢◌, ◌⊎◌, ◌∙◌, refl, sym, ap, true, false, Bool-cases, inl, inr, some,
  Option-cases, List, [], ◌∷◌, map, lookup, arith, ◌==◌, eqb→eq, eqb→ne, eqb_refl,
}
use mathlib.Core.Path.{subst}
use embed_sanitizer.Clock.{tid_of}
use embed_sanitizer.Clock.Entry.{entry}
use embed_sanitizer.State.{ThreadState, State}
use embed_sanitizer.Detector.{IsSystem, Each, knows, Owned}
use embed_sanitizer.Detector.Own.{tid_of-epoch, epoch-Knows, epoch-Owned, live}
use embed_sanitizer.Interface.Memory.{Remembers}
use embed_sanitizer.Trace.{World, accessed, at_key}
use embed_sanitizer.Trace.Knowledge.{thread_knows, lock_knows, thread_knows-found, IsStamped}
use embed_sanitizer.Trace.Linked.{Linked}

module _ (s : State) (w : World) (stamp : ℕ → ℕ) (self : ℕ) (t : ThreadState)
    (li : Linked s w stamp) (f : lookup self s.threads ≡ some t) where
  -- The stamps with that of the next access.
  abbrev pub stamp_next : ℕ → ℕ
  stamp_next = at_key w.next t.epoch stamp

  old : (a : ℕ) → a < w.next → stamp_next a ≡ stamp a
  old a h = let e : (w.next == a) ≡ false = ground arith in rw e refl

  new : stamp_next w.next ≡ t.epoch
  new = rw (eqb_refl w.next) refl

  pub map-old : (l : List ℕ) → Each (λ a. a < w.next) l → map stamp_next l ≡ map stamp l
  map-old [] h = refl
  map-old (a ∷ l) (h, hs) = rw (old a h, map-old l hs) refl

  pub map-new :
      (l : List ℕ) → Each (λ a. a < w.next) l → map stamp_next (w.next ∷ l) ≡ t.epoch ∷ map stamp l
  map-new l h = rw (new, map-old l h) refl

  pub weaken : (l : List ℕ) → Each (λ a. a < w.next) l → Each (λ a. a < suc w.next) l
  weaken [] h = tt
  weaken (a ∷ l) (h, hs) = (omega arith, weaken l hs)

  thread_ignores : (k : ℕ) → self ≢ k → thread_knows s.threads k t.epoch ≡ false
  unfolding thread_knows
  thread_ignores k ne = elim (Option-cases (lookup k s.threads)) [
    | inl e ↦ rw (e, thread_knows) refl
    | inr (u, e) ↦
        let i = li.system in
        let b = i.behind self k t u f e ne in
        let b' : entry u.c (tid_of t.epoch) < t.epoch = rw (tid_of-epoch s self t i f) b in
        let q : knows u.c t.epoch ≡ false = ground arith in rw (e, thread_knows) q
  ]

  lock_ignores : (j : ℕ) → lock_knows s.locks j t.epoch ≡ false
  unfolding lock_knows
  lock_ignores j = elim (Option-cases (lookup j s.locks)) [
    | inl e ↦ rw (e, lock_knows) refl
    | inr (l, e) ↦
        let i = li.system in
        let b = i.behind_lock self j t l f e in
        let b' : entry l (tid_of t.epoch) < t.epoch = rw (tid_of-epoch s self t i f) b in
        let q : knows l t.epoch ≡ false = ground arith in rw (e, lock_knows) q
  ]

  self_knows : thread_knows s.threads self t.epoch ≡ true
  self_knows =
      let k = epoch-Knows s self t li.system f in
      let q : knows t.c t.epoch ≡ true = ground arith in
      thread_knows-found s.threads self t.epoch t f ∙ q

  -- An access so far, or the next one.
  past_or_next : (a : ℕ) → a < suc w.next → (a < w.next) ⊎ (w.next ≡ a)
  past_or_next a h = ground arith

  known_old : (k a : ℕ) → (w.next == a) ≡ false → (accessed self w).known k a ≡ w.known k a
  known_old k a h = elim (Bool-cases (self == k)) [
    | inr other ↦ rw other refl
    | inl same ↦ rw (same, h) (ap (λ z. w.known z a) (eqb→eq self k same))
  ]

  known_next :
      (k a : ℕ)
      → a < suc w.next
      → (accessed self w).known k a ≡ thread_knows s.threads k (stamp_next a)
  known_next k a h = elim (past_or_next a h) [
    | inl p ↦
        known_old k a (ground arith)
        ∙ li.known k a p
        ∙ ap (thread_knows s.threads k) (sym (old a p))
    | inr e ↦
        subst (λ z. (accessed self w).known k z ≡ thread_knows s.threads k (stamp_next z)) e
          (at_next k)
  ]
    where
      at_next :
          (k : ℕ) → (accessed self w).known k w.next ≡ thread_knows s.threads k (stamp_next w.next)
      at_next k = elim (Bool-cases (self == k)) [
        | inl same ↦
            rw (same, eqb_refl w.next)
              (sym self_knows ∙ ap (λ z. thread_knows s.threads z t.epoch) (eqb→eq self k same))
        | inr other ↦
            rw (other, eqb_refl w.next)
              (li.unknown k w.next (omega arith) ∙ sym (thread_ignores k (eqb→ne self k other)))
      ]

  handed_next : (j a : ℕ) → a < suc w.next → w.handed j a ≡ lock_knows s.locks j (stamp_next a)
  handed_next j a h = elim (past_or_next a h) [
    | inl p ↦ li.handed j a p ∙ ap (lock_knows s.locks j) (sym (old a p))
    | inr e ↦
        subst (λ z. w.handed j z ≡ lock_knows s.locks j (stamp_next z)) e
          (li.unhanded j w.next (omega arith)
            ∙ sym (ap (lock_knows s.locks j) new ∙ lock_ignores j))
  ]

  IsStamped-next : (a : ℕ) → a < suc w.next → IsStamped (stamp_next a)
  IsStamped-next a h = elim (past_or_next a h) [
    | inl p ↦ subst IsStamped (sym (old a p)) (li.stamped a p)
    | inr e ↦
        subst (λ z. IsStamped (stamp_next z)) e
          (subst IsStamped (sym new) (live s self t li.system f))
  ]

  Owned-next : (a : ℕ) → a < suc w.next → Owned s (stamp_next a)
  Owned-next a h = elim (past_or_next a h) [
    | inl p ↦ subst (Owned s) (sym (old a p)) (li.owned a p)
    | inr e ↦
        subst (λ z. Owned s (stamp_next z)) e
          (subst (Owned s) (sym new) (epoch-Owned s self t li.system f))
  ]

  -- The state after the access, whose histories are `rs` and `ws`.
  pub accessed-Linked :
      (s' : State) (rs ws : ℕ → List ℕ)
      → IsSystem s'
      → s'.threads ≡ s.threads
      → s'.locks ≡ s.locks
      → s'.is_concurrent ≡ s.is_concurrent
      → ((addr : ℕ) → Each (λ a. a < suc w.next) (rs addr))
      → ((addr : ℕ) → Each (λ a. a < suc w.next) (ws addr))
      → ((addr : ℕ)
          → Remembers s' addr
              (record { reads = map stamp_next (rs addr); writes = map stamp_next (ws addr) }))
      → Linked s' (record (accessed self w) { reads = rs; writes = ws }) stamp_next
  accessed-Linked s' rs ws i ts ls c pr pw mem = record {
    system = i;
    running = li.running ∙ sym c;
    known = λ k a h. known_next k a h ∙ ap (λ m. thread_knows m k (stamp_next a)) (sym ts);
    handed = λ j a h. handed_next j a h ∙ ap (λ m. lock_knows m j (stamp_next a)) (sym ls);
    unknown = λ k a h. known_old k a (ground arith) ∙ li.unknown k a (omega arith);
    unhanded = λ j a h. li.unhanded j a (omega arith);
    stamped = IsStamped-next;
    owned = λ a h k u g q. Owned-next a h k u (ap (lookup k) (sym ts) ∙ g) q;
    past_reads = pr;
    past_writes = pw;
    remembers = mem;
  }
