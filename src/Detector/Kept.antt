-- ===== src/Detector/Kept.antt =====
-- The test of `ft_write` on what a variable keeps of the reads, and what is kept after it.
use embed_sanitizer.Common.{
  min, ℕ, ◌≤◌, ◌<◌, ◌≡◌, ◌≢◌, ◌↔◌, refl, not, Bool, false, some, ◌||◌, Returns, length, lookup,
  arith, Bool-cases, ◌==◌, if◌then◌else◌, inl, inr, eqb→eq, eqb→ne,
}
use embed_sanitizer.Clock.{VectorClock, tid_of, shl24, read_shared}
use embed_sanitizer.Clock.Entry.{entry, IsClock, max_tid, tid_of-IsEpoch}
use embed_sanitizer.State.{ThreadState, VarState, State}
use embed_sanitizer.FastTrack.{check_reads}
use embed_sanitizer.FastTrack.Ticks.{tid-lt}
use embed_sanitizer.Detector.{
  knows, Knows, Each, IsSystem, Recorded, shared, exclusive, Covered, by_write, by_read, Owned,
  IsStamp, Tracks, History,
}
use embed_sanitizer.Detector.Check.{is_after-knows, scan_reads-ok}
use embed_sanitizer.Detector.Own.{epoch-IsEpoch, tid_of-epoch, own-View}

-- The clock knows every read that the variable keeps.
abbrev pub AllRecorded : VectorClock → VarState → Type 0
AllRecorded c x = (b : ℕ) → Recorded x b → Knows c b

module _ (s : State) (k : ℕ) (t : ThreadState) (i : IsSystem s) (e : lookup k s.threads ≡ some t)
    (x : VarState) (h : History) (tr : Tracks s x h) where
  pub next_read : ℕ
  next_read = if x.r == read_shared then shl24 t.tid else x.r

  shared-Recorded :
      x.r ≡ read_shared
      → ((u : ℕ) → 0 ≤ u → u < s.num_threads → entry x.rvc u ≤ entry t.c u)
      → AllRecorded t.c x
  shared-Recorded sh f b (exclusive z q) = absurd (z sh)
  shared-Recorded sh f b (shared u l z q) =
      let lt : u < s.num_threads = omega (arith, tr.rvc_shared sh) in
      let id =
        tid_of-IsEpoch u (entry x.rvc u) (omega (arith, i.few))
          (tr.rvc_epochs u (omega (arith, i.few))) in
      rw (q, id) (f u (omega arith) lt)

  exclusive-Recorded : x.r ≢ read_shared → Knows t.c x.r → AllRecorded t.c x
  exclusive-Recorded ne q b (shared u l z _) = absurd (ne z)
  exclusive-Recorded ne q b (exclusive z p) = rw p q

  -- The test finds a race unless there was one before or a read that is not known.
  pub check_reads-ok :
      (race : Bool)
      → Returns
          (check_reads x t race)
          λ r. (r.1 ≡ next_read) × ((r.0 ≡ false) ↔ ((race ≡ false) × AllRecorded t.c x))
  unfolding check_reads next_read
  check_reads-ok race = elim (Bool-cases (x.r == read_shared)) [
    | inl sh ↦
        let sh' = eqb→eq x.r read_shared sh in
        let n = min (length x.rvc) (length t.c) in
        let size : n ≡ s.num_threads = omega (arith, tr.rvc_shared sh', (i.wide k t e).1) in
        let (r, run, both) =
          scan_reads-ok n 0 x.rvc t.c race (omega arith) (omega arith) (omega (arith, i.few))
            tr.rvc_epochs (i.thread k t e).clocks in
        (
          (r, shl24 t.tid),
          rw (sh, run, tid_of-epoch s k t i e),
          (
            rw sh,
            (
              (λ z.
                  let w = both.0 z in
                  (w.0, shared-Recorded sh' (λ u lo hi. w.1 u lo (omega arith)))),
              λ z. both.1 (
                z.0,
                λ u lo hi.
                    let lt : u < max_tid = omega (arith, i.few) in
                    rw (tid_of-IsEpoch u (entry x.rvc u) lt (tr.rvc_epochs u lt)) at
                      (z.1 (entry x.rvc u) (shared u (omega (arith, tr.rvc_shared sh')) sh' refl)),
              ),
            ),
          ),
        )
    | inr ex ↦
        let ne = eqb→ne x.r read_shared ex in
        let w =
          is_after-knows t s.num_threads x.r (i.thread k t e) ((i.wide k t e).1) (tr.r_stamp ne)
            (tr.r_owned ne k t e) in
        (
          (race || not (knows t.c x.r), x.r),
          rw (ex, w),
          (
            rw ex,
            (
              (λ z. (ground arith, exclusive-Recorded ne (ground arith))),
              λ z. let q : Knows t.c x.r = z.1 x.r (exclusive ne refl) in ground (arith, z.0),
            ),
          ),
        )
  ]

  pub Covered-known : Knows t.c x.w → AllRecorded t.c x → (a : ℕ) → Covered s x a → Knows t.c a
  Covered-known q all a (by_write f) = f.1 t.c (own-View s k t i e) q
  Covered-known q all a (by_read b r f) = f.1 t.c (own-View s k t i e) (all b r)

  pub recorded_lower : Each (Knows t.c) h.reads → AllRecorded t.c x
  recorded_lower all b (exclusive ne q) = rw q (tr.r_lower t.c (i.thread k t e).clocks all ne)
  recorded_lower all b (shared u l sh q) =
      let lt : u < max_tid = omega (arith, i.few, tr.rvc_shared sh) in
      rw (q, tid_of-IsEpoch u (entry x.rvc u) lt (tr.rvc_epochs u lt))
        (tr.rvc_lower t.c (i.thread k t e).clocks all u lt)

  -- The read state after the write: a stamp that the thread knows.
  pub next_read-facts :
      (next_read ≢ read_shared)
      × IsStamp s.num_threads next_read
      × Owned s next_read
      × (AllRecorded t.c x → Knows t.c next_read)
      × ((v : VectorClock) → IsClock v → Each (Knows v) h.reads → Knows v next_read)
  unfolding next_read
  next_read-facts = elim (Bool-cases (x.r == read_shared)) [
    | inl sh ↦
        let lt = tid-lt (i.thread k t e) in
        let id : tid_of (shl24 t.tid) ≡ t.tid = omega arith in
        rw sh (
          omega arith,
          (omega arith, omega (arith, (i.wide k t e).0)),
          (λ j u f z. let p = epoch-IsEpoch s j u i f in omega (arith, p.low)),
          (λ _. rw id (omega (arith, ((i.thread k t e).clocks.entries t.tid lt).low))),
          λ v c _. rw id (omega (arith, (c.entries t.tid lt).low)),
        )
    | inr ex ↦
        let ne = eqb→ne x.r read_shared ex in
        rw ex (
          ne,
          tr.r_stamp ne,
          tr.r_owned ne,
          (λ all. all x.r (exclusive ne refl)),
          λ v c all. tr.r_lower v c all ne,
        )
  ]
