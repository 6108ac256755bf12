-- ===== src/Detector/Check.antt =====
-- The tests of `ft_read` and `ft_write` against the reference's.
use embed_sanitizer.Common.{
  ap, some-inj, ℕ, zero, suc, ◌+◌, ◌≤◌, ◌<◌, ◌≡◌, ◌↔◌, ◌∙◌, inl, inr, refl, sym, Bool, true, false,
  not, ◌||◌, some, List, [], ◌∷◌, ok, Returns, length, lookup, ◌==◌, at-get_or, arith, Bool-cases,
  eqb→eq, eqb→ne,
}
use embed_sanitizer.Clock.{VectorClock, tid_of, shl24, sle}
use embed_sanitizer.Clock.Entry.{entry, IsEpoch, IsClock, max_tid, sle-leb, clock_of-IsEpoch}
use embed_sanitizer.State.{ThreadState, State}
use embed_sanitizer.FastTrack.{is_after, scan_reads}
use embed_sanitizer.FastTrack.Ticks.{IsThread}
use embed_sanitizer.Detector.{
  knows, Knows, all_known, Each, View, of_thread, of_lock, IsSystem, IsStamp,
}

pub stamp-IsEpoch : (n a : ℕ) → IsStamp n a → (tid_of a < max_tid) × IsEpoch (tid_of a) a
stamp-IsEpoch n a h = (omega arith, omega arith)

-- For a stamp within the thread's clock the test is whether the clock knows it.
pub is_after-knows :
    (t : ThreadState) (n x : ℕ)
    → IsThread t
    → n ≤ length t.c
    → IsStamp n x
    → (tid_of x ≡ t.tid → x ≤ t.epoch)
    → is_after x t ≡ ok (not (knows t.c x))
unfolding is_after
is_after-knows t n x v wide st own =
    let (lt, p) = stamp-IsEpoch n x st in
    let q = v.clocks.entries (tid_of x) lt in
    elim (Bool-cases (tid_of x == t.tid)) [
      | inl e ↦
          let same = eqb→eq (tid_of x) t.tid e in
          let le : Knows t.c x = rw (same, v.own) (own same) in rw e (ground arith)
      | inr e ↦
          rw (e, at-get_or t.c (tid_of x) (shl24 (tid_of x)) (omega arith))
            (ground (
              arith,
              clock_of-IsEpoch (tid_of x) x lt p,
              clock_of-IsEpoch (tid_of x) (entry t.c (tid_of x)) lt q,
            ))
    ]

pub Each-all_known : (c : VectorClock) (l : List ℕ) → Each (Knows c) l → all_known c l ≡ true
unfolding all_known
Each-all_known c [] h = refl
Each-all_known c (a ∷ l) h = ground (arith, Each-all_known c l h.1)

pub all_known-Each : (c : VectorClock) (l : List ℕ) → all_known c l ≡ true → Each (Knows c) l
unfolding all_known
all_known-Each c [] h = tt
all_known-Each c (a ∷ l) h = (ground arith, all_known-Each c l (ground arith))

pub Each-map {ℓ κ} :
    (P : ℕ → Type ℓ) (Q : ℕ → Type κ) (l : List ℕ) → ((a : ℕ) → P a → Q a) → Each P l → Each Q l
Each-map P Q [] f h = tt
Each-map P Q (a ∷ l) f h = (f a h.0, Each-map P Q l f h.1)

-- Only the thread itself knows its epoch.
pub only_own :
    (s : State) (k : ℕ) (t : ThreadState) (v : VectorClock)
    → IsSystem s
    → lookup k s.threads ≡ some t
    → View s v
    → t.epoch ≤ entry v t.tid
    → v ≡ t.c
only_own s k t v i e (of_thread j u f q) h = elim (Bool-cases (k == j)) [
  | inl same ↦
      let f' : lookup k s.threads ≡ some u = rw (eqb→eq k j same) f in
      q ∙ ap (λ (x : ThreadState). x.c) (some-inj (sym f' ∙ e))
  | inr other ↦ absurd (
      omega
        (arith, i.behind k j t u e f (eqb→ne k j other), ap (λ (w : VectorClock). entry w t.tid) q))
]
only_own s k t v i e (of_lock j f) h = absurd (omega (arith, i.behind_lock k j t v e f))

-- The loop over the shared reads asks whether the clock knows each of them.
pub scan_reads-ok :
    (n i : ℕ) (rvc c : VectorClock) (race : Bool)
    → i + n ≤ length rvc
    → i + n ≤ length c
    → i + n ≤ max_tid
    → ((u : ℕ) → u < max_tid → IsEpoch u (entry rvc u))
    → IsClock c
    → Returns (scan_reads n i rvc c race) λ r.
      (r ≡ false) ↔ ((race ≡ false) × ((u : ℕ) → i ≤ u → u < i + n → entry rvc u ≤ entry c u))
unfolding scan_reads
scan_reads-ok zero i rvc c race h k m p q =
    (race, refl, ((λ e. (e, λ u lo hi. absurd (omega arith))), λ e. e.0))
scan_reads-ok (suc n) i rvc c race h k m p q =
    let a = entry rvc i in
    let b = entry c i in
    let sl = sle-leb i a b (omega arith) (p i (omega arith)) (q.entries i (omega arith)) in
    let (r, run, both) =
      scan_reads-ok n (suc i) rvc c (race || not (sle a b)) (omega arith) (omega arith)
        (omega arith) p q in
    (
      r,
      rw (at-get_or rvc i (shl24 i) (omega arith), at-get_or c i (shl24 i) (omega arith)) run,
      (
        (λ e.
            let w = both.0 e in
            (
              ground arith,
              λ u lo hi. elim (Bool-cases (i == u)) [
                | inl here ↦ let le : a ≤ b = ground (arith, sl, w.0) in rw (← eqb→eq i u here) le
                | inr later ↦ w.1 u (omega (arith, eqb→ne i u later)) (omega arith)
              ],
            )),
        λ e. both.1 (
          ground (arith, sl, e.1 i (omega arith) (omega arith)),
          λ u lo hi. e.1 u (omega arith) (omega arith),
        ),
      ),
    )
