-- ===== src/Detector/Read.antt =====
-- `ft_read` against the reference.
use embed_sanitizer.Common.{
  ℕ, ◌+◌, ◌<◌, ◌≡◌, refl, not, Bool, true, false, some, ◌||◌, Returns, length, lookup, arith,
  Bool-cases, ◌==◌, if◌then◌else◌, inl, inr, set, put-set, at-get_or, length-set, get_or-out,
  eqb→eq, eqb→ne,
}
use embed_sanitizer.Clock.{VectorClock, u32, tid_of, shl24, read_shared, sle, new_vector_clock}
use embed_sanitizer.Clock.Entry.{entry, sle-leb}
use embed_sanitizer.Clock.Extend.{length-new_vector_clock, entry-new_vector_clock}
use embed_sanitizer.State.{ThreadState, VarState, State}
use embed_sanitizer.FastTrack.{update_read, Access, ft_read}
use embed_sanitizer.Detector.{knows, Knows, read_races, add_read, IsSystem, Tracks, History}
use embed_sanitizer.Detector.Check.{is_after-knows, stamp-IsEpoch, Each-all_known}
use embed_sanitizer.Detector.Own.{write_known}
use embed_sanitizer.Detector.Exclusive.{same_epoch-Tracks, exclusive-Tracks}
use embed_sanitizer.Detector.Shared.{shared-Tracks, share-Tracks}

-- What an access to a tracked variable has to do: answer as the reference does, count itself, and
-- keep the invariant if it did not race.
pub record Exact (s : State) (answer : Bool) (h : History) (count : ℕ) (a : Access) : Type 0 where
  pub exact : a.is_racy ≡ answer
  pub counted : a.count ≡ u32 (count + 1)
  pub tracks : answer ≡ false → Tracks s a.var h

module _ (s : State) (k : ℕ) (t : ThreadState) (i : IsSystem s) (e : lookup k s.threads ≡ some t)
    (x : VarState) (h : History) (tr : Tracks s x h) where
  -- `Rvc` as the branch "Share" finds it: made on first use.
  abbrev fresh_rvc : VectorClock
  fresh_rvc = if length x.rvc == 0 then new_vector_clock x.rvc s.num_threads else x.rvc

  length-fresh_rvc : length fresh_rvc ≡ s.num_threads
  length-fresh_rvc = ground (arith, tr.rvc_size, length-new_vector_clock x.rvc s.num_threads)

  entry-fresh_rvc : (u : ℕ) → entry fresh_rvc u ≡ entry x.rvc u
  entry-fresh_rvc u = elim (Bool-cases (length x.rvc == 0)) [
    | inl none' ↦ rw (
      none',
      entry-new_vector_clock x.rvc s.num_threads u,
      get_or-out x.rvc u (shl24 u) (omega (arith, eqb→eq (length x.rvc) 0 none')),
    )
    | inr some' ↦ rw some'
  ]

  share-ok :
      (x.r == read_shared) ≡ false
      → sle x.r (entry t.c (tid_of x.r)) ≡ false
      → Returns (update_read s.num_threads x t) λ y. Knows t.c x.w → Tracks s y (add_read t.epoch h)
  unfolding update_read
  share-ok ex later =
      let ne = eqb→ne x.r read_shared ex in
      let size = length-fresh_rvc in
      let y = set fresh_rvc (tid_of x.r) x.r in
      let z : VarState = record x { r = read_shared; rvc = y } in
      (
        record z { rvc = set y t.tid t.epoch },
        rw (
          ex,
          at-get_or t.c (tid_of x.r) (shl24 (tid_of x.r))
              (omega (arith, (i.wide k t e).1, (tr.r_stamp ne).1)),
          later,
          put-set fresh_rvc (tid_of x.r) x.r (omega (arith, (tr.r_stamp ne).1)),
          put-set y t.tid t.epoch
              (omega (arith, length-set fresh_rvc (tid_of x.r) x.r, (i.wide k t e).0)),
        ),
        shared-Tracks s k t i e z h
            (share-Tracks s k t i e x h tr fresh_rvc size entry-fresh_rvc ne) refl,
      )

  -- The read state is updated without fault, and so that the read is remembered.
  update_read-Tracks :
      Returns (update_read s.num_threads x t) λ y. Knows t.c x.w → Tracks s y (add_read t.epoch h)
  unfolding update_read
  update_read-Tracks = elim (Bool-cases (x.r == read_shared)) [
    | inl sh ↦
        let sh' = eqb→eq x.r read_shared sh in
        let within : t.tid < length x.rvc = omega (arith, (i.wide k t e).0, tr.rvc_shared sh') in
        (
          record x { rvc = set x.rvc t.tid t.epoch },
          rw (sh, put-set x.rvc t.tid t.epoch within),
          shared-Tracks s k t i e x h tr sh',
        )
    | inr ex ↦ elim (Bool-cases (sle x.r (entry t.c (tid_of x.r)))) [
      | inl le ↦
          let ne = eqb→ne x.r read_shared ex in
          let st = tr.r_stamp ne in
          let p = stamp-IsEpoch s.num_threads x.r st in
          let q = (i.thread k t e).clocks.entries (tid_of x.r) p.0 in
          let known : Knows t.c x.r =
            ground (arith, sle-leb (tid_of x.r) x.r (entry t.c (tid_of x.r)) p.0 p.1 q) in
          (
            record x { r = t.epoch },
            rw (
              ex,
              at-get_or t.c (tid_of x.r) (shl24 (tid_of x.r))
                  (omega (arith, (i.wide k t e).1, st.1)),
              le,
            ),
            exclusive-Tracks s k t i e x h tr ne known,
          )
      | inr gt ↦ share-ok ex gt
    ]
  ]

  -- For a variable that stands for a history, `ft_read` does not fault, counts the read, and answers
  -- whether some write of the history did not happen before it; if none, the variable that it leaves
  -- stands for the history with the read.
  pub ft_read-Exact :
      (reads : ℕ)
      → Returns
          (ft_read s.num_threads reads x t)
          (Exact s (read_races t.c h) (add_read t.epoch h) reads)
  unfolding ft_read read_races
  ft_read-Exact reads = elim (Bool-cases (x.r == t.epoch)) [
    | inl same ↦
        let same' = eqb→eq x.r t.epoch same in
        let all = Each-all_known t.c h.writes (tr.same_read k t e same') in
        let known : Knows t.c x.w =
          tr.w_lower t.c (i.thread k t e).clocks (tr.same_read k t e same') in
        (
          record { is_racy = false; var = x; count = u32 (reads + 1) },
          rw (let go : (x.racy || (x.r == t.epoch)) ≡ true = ground (arith, tr.calm, same) in go),
          record {
            exact = rw all;
            counted = refl;
            tracks = λ _. same_epoch-Tracks s k t i e x h tr same' known;
          },
        )
    | inr other ↦
        let (y, run, keep) = update_read-Tracks in
        let w =
          is_after-knows t s.num_threads x.w (i.thread k t e) ((i.wide k t e).1) tr.w_stamp
            (tr.w_owned k t e) in
        let known = write_known s k t i e tr in
        (
          record { is_racy = not (knows t.c x.w); var = y; count = u32 (reads + 1) },
          rw (
            (let go : (x.racy || (x.r == t.epoch)) ≡ false = ground (arith, tr.calm, other) in go),
            w,
            run,
          ),
          record { exact = rw known; counted = refl; tracks = λ z. keep (ground (arith, known)) },
        )
  ]
