-- ===== src/Detector/Advance.antt =====
-- What a synchronisation does to the clocks, and why no variable's invariant is lost by it.
use native.Mathlib.Nat.{le_trans}
use embed_sanitizer.Common.{
  ℕ, ◌+◌, ◌≤◌, ◌<◌, ◌≡◌, ◌≢◌, ◌∙◌, refl, sym, max, Bool-cases, inl, inr, some, lookup, arith, leb,
  ◌==◌, if◌then◌else◌, eqb→eq,
}
use embed_sanitizer.Clock.{VectorClock, tid_of, shl24, read_shared}
use embed_sanitizer.Clock.Entry.{entry, max_tid, tid_of-IsEpoch}
use embed_sanitizer.State.{ThreadState, VarState, State}
use embed_sanitizer.FastTrack.Ticks.{IsThread, tid-lt}
use embed_sanitizer.Detector.{
  Knows, View, of_thread, Implies, shared, exclusive, Covered, by_write, by_read, Owned, Tracks,
  History,
}
use embed_sanitizer.Detector.Check.{Each-map}

-- The clock `v` is made from those of `s` in one step.
pub data Derived (s : State) (v : VectorClock) : Type 0 where
  copy : (w : VectorClock) → View s w → ((j : ℕ) → entry v j ≡ entry w j) → Derived s v
  zero_clock : ((j : ℕ) → entry v j ≡ shl24 j) → Derived s v
  join :
      (w z : VectorClock)
      → View s w
      → View s z
      → ((j : ℕ) → entry v j ≡ max (entry w j) (entry z j))
      → Derived s v
  tick :
      (k : ℕ) (t : ThreadState)
      → lookup k s.threads ≡ some t
      → entry t.c t.tid ≡ t.epoch
      → ((j : ℕ) → entry v j ≡ (if t.tid == j then t.epoch + 1 else entry t.c j))
      → Derived s v

-- The thread `t` has become `t'`.
pub record Grown (t t' : ThreadState) : Type 0 where
  pub valid : IsThread t'
  pub tid : t'.tid ≡ t.tid
  pub epoch : t.epoch ≤ t'.epoch
  pub mono : (j : ℕ) → entry t.c j ≤ entry t'.c j

pub record Advance (s s' : State) : Type 0 where
  pub num : s'.num_threads ≡ s.num_threads
  pub thread :
      (k : ℕ) (t' : ThreadState)
      → lookup k s'.threads ≡ some t'
      → (t : ThreadState) × (lookup k s.threads ≡ some t) × Grown t t'
  pub view : (v : VectorClock) → View s' v → Derived s v

tick-Knows :
    (t : ThreadState) (v : VectorClock)
    → entry t.c t.tid ≡ t.epoch
    → ((j : ℕ) → entry v j ≡ (if t.tid == j then t.epoch + 1 else entry t.c j))
    → (a : ℕ) → Knows t.c a
    → Knows v a
tick-Knows t v o e a h = elim (Bool-cases (t.tid == tid_of a)) [
  | inl mine ↦
      let same = eqb→eq t.tid (tid_of a) mine in
      let le : a ≤ t.epoch = rw (sym same, o) at h in ground (arith, e (tid_of a))
  | inr other ↦ ground (arith, e (tid_of a))
]

Derived-Implies :
    (s : State) (b a : ℕ) (v : VectorClock)
    → Implies s b a
    → Owned s b
    → Derived s v
    → Knows v b
    → Knows v a
Derived-Implies s b a v f own (copy w view e) q =
    rw (e (tid_of a)) (f.1 w view (rw (e (tid_of b)) at q))
Derived-Implies s b a v f own (zero_clock e) q = absurd (omega (arith, f.0, e (tid_of b)))
Derived-Implies s b a v f own (join w z vw vz e) q =
    elim (Bool-cases (leb b (entry w (tid_of b)))) [
      | inl y ↦ let le : Knows w b = ground arith in omega (arith, e (tid_of a), f.1 w vw le)
      | inr n ↦
          let le : Knows z b = ground (arith, e (tid_of b)) in
          omega (arith, e (tid_of a), f.1 z vz le)
    ]
Derived-Implies s b a v f own (tick k t l o e) q =
    let raised = λ (c : ℕ) (h : Knows t.c c). tick-Knows t v o e c h in
    elim (Bool-cases (t.tid == tid_of b)) [
      | inl mine ↦
          let same = eqb→eq t.tid (tid_of b) mine in
          let le : Knows t.c b = rw (sym same, o) (own k t l (sym same)) in
          raised a (f.1 t.c (of_thread k t l refl) le)
      | inr other ↦
          let le : Knows t.c b = ground (arith, e (tid_of b)) in
          raised a (f.1 t.c (of_thread k t l refl) le)
    ]

-- An invariant of one variable carries over.
module _ (s s' : State) (x : VarState) (h : History) (few : s.num_threads ≤ max_tid)
    (adv : Advance s s') (tr : Tracks s x h) where
  still_Owned : (b : ℕ) → Owned s b → Owned s' b
  still_Owned b own k t' l q =
      let (t, l0, g) = adv.thread k t' l in omega (arith, own k t l0 (q ∙ g.tid), g.epoch)

  still_Implies : (b a : ℕ) → Owned s b → Implies s b a → Implies s' b a
  still_Implies b a own f = (f.0, λ v w q. Derived-Implies s b a v f own (adv.view v w) q)

  still_Covered : (a : ℕ) → Covered s x a → Covered s' x a
  still_Covered a (by_write f) = by_write (still_Implies x.w a tr.w_owned f)
  still_Covered a (by_read b (exclusive ne q) f) =
      by_read b (exclusive ne q) (still_Implies b a (rw q (tr.r_owned ne)) f)
  still_Covered a (by_read b (shared u l sh q) f) =
      let lt : u < max_tid = omega (arith, tr.rvc_shared sh) in
      by_read b (shared u l sh q) (still_Implies b a (rw q (tr.rvc_owned u lt)) f)

  -- A thread whose epoch is that of a kept access has been in that epoch before.
  same_epoch :
      (b k : ℕ) (t' : ThreadState)
      → Owned s b
      → lookup k s'.threads ≡ some t'
      → b ≡ t'.epoch
      → (t : ThreadState) × (lookup k s.threads ≡ some t) × (b ≡ t.epoch) × Grown t t'
  same_epoch b k t' own l q =
      let (t, l0, g) = adv.thread k t' l in
      let v = g.valid in
      let p = v.clocks.entries t'.tid (tid-lt v) in
      let id : tid_of t'.epoch ≡ t'.tid =
        tid_of-IsEpoch t'.tid t'.epoch (tid-lt v) (rw v.own at p) in
      let le : b ≤ t.epoch = own k t l0 (rw q (id ∙ g.tid)) in (t, l0, omega (arith, g.epoch), g)

  epoch_ne : (k : ℕ) (t' : ThreadState) → lookup k s'.threads ≡ some t' → t'.epoch ≢ read_shared
  epoch_ne k t' l =
      let v = ((adv.thread k t' l).2).valid in
      let p = v.clocks.entries t'.tid (tid-lt v) in omega (arith, v.own, p.high, tid-lt v)

  pub Advance-Tracks : Tracks s' x h
  Advance-Tracks =
      let n = adv.num in
      record {
        calm = tr.calm;
        w_stamp = rw n tr.w_stamp;
        r_stamp = λ ne. rw n (tr.r_stamp ne);
        rvc_epochs = tr.rvc_epochs;
        rvc_size = rw n tr.rvc_size;
        rvc_shared = λ sh. rw n (tr.rvc_shared sh);
        w_owned = still_Owned x.w tr.w_owned;
        r_owned = λ ne. still_Owned x.r (tr.r_owned ne);
        rvc_owned = λ u l. still_Owned (entry x.rvc u) (tr.rvc_owned u l);
        w_upper =
            Each-map (Implies s x.w) (Implies s' x.w) h.writes (λ a. still_Implies x.w a tr.w_owned)
              tr.w_upper;
        r_upper = Each-map (Covered s x) (Covered s' x) h.reads still_Covered tr.r_upper;
        w_lower = tr.w_lower;
        r_lower = tr.r_lower;
        rvc_lower = tr.rvc_lower;
        same_read = λ k t' l q.
            let ne : x.r ≢ read_shared = λ z. epoch_ne k t' l (sym q ∙ z) in
            let (t, l0, q0, g) = same_epoch x.r k t' (tr.r_owned ne) l q in
            Each-map (Knows t.c) (Knows t'.c) h.writes (λ a z. le_trans z (g.mono (tid_of a)))
              (tr.same_read k t l0 q0);
        same_write = λ k t' l q.
            let (t, l0, q0, g) = same_epoch x.w k t' tr.w_owned l q in
            let old = tr.same_write k t l0 q0 in
            let up = λ (a : ℕ) (z : Knows t.c a). le_trans z (g.mono (tid_of a)) in
            (
              Each-map (Knows t.c) (Knows t'.c) h.writes up old.0,
              Each-map (Knows t.c) (Knows t'.c) h.reads up old.1,
            );
      }
