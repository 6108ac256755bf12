-- ===== src/FastTrack/Sync.antt =====
-- The synchronisation events of etsan/fasttrack.h on well-formed threads: no fault, and the clocks
-- that they leave.
use embed_sanitizer.Common.{ℕ, ◌+◌, ◌≤◌, ◌≡◌, ◌∙◌, sym, max, Returns, length, set, arith}
use embed_sanitizer.Clock.{VectorClock, extend_vector_clocks}
use embed_sanitizer.Clock.Entry.{entry, IsClock, max_tid}
use embed_sanitizer.Clock.Extend.{length-extend_vector_clocks, entry-extend_vector_clocks}
use embed_sanitizer.Clock.Join.{join_loop-IsJoin, copy_loop-IsCopy}
use embed_sanitizer.State.{ThreadState}
use embed_sanitizer.FastTrack.{ft_acquire, ft_release, ft_fork, ft_join}
use embed_sanitizer.FastTrack.Ticks.{
  HasRoom, IsThread, Joined, Same, Ticked, joined, same, tick-ok, ticked, update_epoch-ok,
}

-- On a well-formed thread and lock, where the lock knows no later epoch of the thread, `ft_acquire`
-- does not fault: the thread's clock takes the larger entries, its epoch stays, and the lock's
-- entries stay.
pub ft_acquire-Joined :
    (t : ThreadState) (l : VectorClock)
    → IsThread t
    → IsClock l
    → entry l t.tid ≤ t.epoch
    → Returns (ft_acquire t l) λ r. Joined t l r.0 × Same l r.1
unfolding ft_acquire
ft_acquire-Joined t l v w behind =
    let (c0, l0) = extend_vector_clocks t.c l in
    let size = length-extend_vector_clocks t.c l in
    let keep = entry-extend_vector_clocks t.c l in
    let (c, run, join) =
      join_loop-IsJoin t.c l c0 l0 (length l0) size.0 size.1 size.1 (λ j. (keep j).0)
        (λ j. (keep j).1) in
    (
      (record t { c = c; epoch = entry c t.tid }, l0),
      rw (run, update_epoch-ok (record t { c = c }) (omega (arith, join.size, v.within))),
      (
        joined t l c v w behind join,
        same l _ w (omega (arith, v.clocks.short, w.short)) (λ j. (keep j).1),
      ),
    )

-- `ft_release`: the lock's clock becomes the thread's, and the thread enters its next epoch.
pub ft_release-Ticked :
    (t : ThreadState) (l : VectorClock)
    → IsThread t
    → IsClock l
    → HasRoom t
    → Returns (ft_release t l) λ r. Ticked t (max (length t.c) (length l)) r.0 × Same t.c r.1
unfolding ft_release
ft_release-Ticked t l v w room =
    let (c, l0) = extend_vector_clocks t.c l in
    let (l', run, copy) = copy_loop-IsCopy l t.c in
    let size = length-extend_vector_clocks t.c l in
    let keep = λ (j : ℕ). (entry-extend_vector_clocks t.c l j).0 in
    let own : entry c t.tid ≡ t.epoch = keep t.tid ∙ v.own in
    let longer : length t.c ≤ length c = omega arith in
    let short : length c ≤ max_tid = omega (arith, v.clocks.short, w.short) in
    (
      (record t { epoch = t.epoch + 1; c = set c t.tid (t.epoch + 1) }, l'),
      rw (
        run,
        update_epoch-ok (record t { c = c }) (omega (arith, v.within)),
        own,
        tick-ok t c v room longer,
      ),
      (
        rw (sym size.0) (ticked t c v room longer short keep),
        same t.c l' v.clocks (omega (arith, copy.size, v.clocks.short, w.short)) copy.reads,
      ),
    )

-- On two well-formed threads, where the parent knows no later epoch of the child and can still grow
-- its own, `ft_fork` does not fault: the child's clock takes the larger entries of the parent's old
-- clock, and the parent moves on to its next epoch.
pub ft_fork-Ticked :
    (t u : ThreadState)
    → IsThread t
    → IsThread u
    → HasRoom t
    → entry t.c u.tid ≤ u.epoch
    → Returns (ft_fork t u) λ r. Ticked t (max (length t.c) (length u.c)) r.0 × Joined u t.c r.1
unfolding ft_fork
ft_fork-Ticked t u v w room behind =
    let (c, d) = extend_vector_clocks t.c u.c in
    let size = length-extend_vector_clocks t.c u.c in
    let keep = entry-extend_vector_clocks t.c u.c in
    let (d', run, join) =
      join_loop-IsJoin u.c t.c d c (length d) (omega arith) (omega arith) (omega arith)
        (λ j. (keep j).1) (λ j. (keep j).0) in
    let longer : length t.c ≤ length c = omega arith in
    (
      (
        record t { epoch = t.epoch + 1; c = set c t.tid (t.epoch + 1) },
        record u { c = d'; epoch = entry d' u.tid },
      ),
      rw (
        run,
        update_epoch-ok (record u { c = d' }) (omega (arith, join.size)),
        tick-ok t c v room longer,
      ),
      (
        rw (sym size.0) (ticked t c v room longer (omega arith) (λ j. (keep j).0)),
        joined u t.c d' w v.clocks behind join,
      ),
    )

-- `ft_join`: the parent takes what the child knows, and the child enters its next epoch.
pub ft_join-Ticked :
    (t u : ThreadState)
    → IsThread t
    → IsThread u
    → HasRoom u
    → entry u.c t.tid ≤ t.epoch
    → Returns (ft_join t u) λ r. Joined t u.c r.0 × Ticked u (max (length t.c) (length u.c)) r.1
unfolding ft_join
ft_join-Ticked t u v w room behind =
    let (c, d) = extend_vector_clocks t.c u.c in
    let size = length-extend_vector_clocks t.c u.c in
    let keep = entry-extend_vector_clocks t.c u.c in
    let (c', run, join) =
      join_loop-IsJoin t.c u.c c d (length c) size.0 size.1 size.0 (λ j. (keep j).0)
        (λ j. (keep j).1) in
    let longer : length u.c ≤ length d = omega arith in
    (
      (
        record t { c = c'; epoch = entry c' t.tid },
        record u { epoch = u.epoch + 1; c = set d u.tid (u.epoch + 1) },
      ),
      rw (
        run,
        update_epoch-ok (record t { c = c' }) (omega (arith, join.size)),
        tick-ok u d w room longer,
      ),
      (
        joined t u.c c' v w.clocks behind join,
        rw (sym size.1) (ticked u d w room longer (omega arith) (λ j. (keep j).1)),
      ),
    )
