-- ===== src/FastTrack.antt =====
-- The race detection algorithm, etsan/fasttrack.h.
pub mod Ticks
pub mod Sync
use embed_sanitizer.Common.{
  ℕ, zero, suc, ◌+◌, min, Bool, true, false, ◌||◌, List, Run, ok, ◌>>=◌, length, at, put, ltb, ◌==◌,
  if◌then◌else◌, not,
}
use embed_sanitizer.Clock.{
  VectorClock, u32, tid_of, clock_of, shl24, read_shared, sle, new_vector_clock,
  extend_vector_clocks, join_loop, copy_loop,
}
use embed_sanitizer.State.{ThreadState, update_epoch, increment, VarState}

-- `TID(x) != t.tid && CLOCK(x) > CLOCK(t.C[TID(x)])`, for `x.W` and for `x.R`.
unfoldable pub is_after : ℕ → ThreadState → Run Bool
is_after x t =
    if tid_of x == t.tid
    then ok false
    else (do e ← at t.c (tid_of x); ok (ltb (clock_of e) (clock_of x)))

-- The part of `ft_read` that updates the read state; `n` is `NumThreads`.
unfoldable pub update_read : ℕ → VarState → ThreadState → Run VarState
update_read n x t =
    if x.r == read_shared then (do v ← put x.rvc t.tid t.epoch; ok (record x { rvc = v })) else (do
      e ← at t.c (tid_of x.r)
      if sle x.r e then ok (record x { r = t.epoch }) else (do
        v ← put (if length x.rvc == 0 then new_vector_clock x.rvc n else x.rvc) (tid_of x.r) x.r
        v' ← put v t.tid t.epoch
        ok (record x { rvc = v'; r = read_shared })))

-- What an access leaves: its answer, the variable, and the counter `VS.reads` or `VS.writes`.
pub record Access : Type 0 where
  pub is_racy : Bool
  pub var : VarState
  pub count : ℕ

unfoldable pub ft_read : ℕ → ℕ → VarState → ThreadState → Run Access
ft_read n reads x t =
    if x.racy || (x.r == t.epoch)
    then ok (record { is_racy = false; var = x; count = u32 (reads + 1) })
    else (do
      race ← is_after x.w t
      x' ← update_read n x t
      ok (record { is_racy = race; var = x'; count = u32 (reads + 1) }))

-- The loop of `ft_write` over the shared reads, from index `u` for the rounds that are left.
unfoldable pub scan_reads : ℕ → ℕ → VectorClock → VectorClock → Bool → Run Bool
scan_reads zero u rvc c race = ok race
scan_reads (suc n) u rvc c race = do
  a ← at rvc u
  b ← at c u
  scan_reads n (suc u) rvc c (race || not (sle a b))

-- The test for a read-write race, and the read state after it.
unfoldable pub check_reads : VarState → ThreadState → Bool → Run (Bool × ℕ)
check_reads x t race =
    if x.r == read_shared
    then (do
      race' ← scan_reads (min (length x.rvc) (length t.c)) 0 x.rvc t.c race
      ok (race', shl24 (tid_of t.epoch)))
    else (do later ← is_after x.r t; ok (race || later, x.r))

unfoldable pub ft_write : ℕ → VarState → ThreadState → Run Access
ft_write writes x t =
    if x.racy || (x.w == t.epoch)
    then ok (record { is_racy = false; var = x; count = u32 (writes + 1) })
    else (do
      race ← is_after x.w t
      (race', r') ← check_reads x t race
      ok (record {
        is_racy = race';
        var = record x { r = r'; w = t.epoch };
        count = u32 (writes + 1);
      }))

unfoldable pub ft_acquire : ThreadState → VectorClock → Run (ThreadState × VectorClock)
ft_acquire t lock = do
  let (c, l) = extend_vector_clocks t.c lock
  c' ← join_loop (length l) 0 c l
  t' ← update_epoch (record t { c = c' })
  ok (t', l)

unfoldable pub ft_release : ThreadState → VectorClock → Run (ThreadState × VectorClock)
ft_release t lock = do
  let (c, l) = extend_vector_clocks t.c lock
  l' ← copy_loop (length l) 0 l c
  t' ← update_epoch (record t { c = c })
  t'' ← increment t'
  ok (t'', l')

-- `t` is the parent and `u` the child, two threads.
unfoldable pub ft_fork : ThreadState → ThreadState → Run (ThreadState × ThreadState)
ft_fork t u = do
  let (c, d) = extend_vector_clocks t.c u.c
  d' ← join_loop (length d) 0 d c
  u' ← update_epoch (record u { c = d' })
  t' ← increment (record t { c = c })
  ok (t', u')

-- `ft_fork` and `ft_join` of a thread and itself: both references are to one state. Its clock has its
-- own length and entries, so that what is left is `updateEpoch` and then `increment`.
unfoldable pub ft_alone : ThreadState → Run (ThreadState × ThreadState)
ft_alone t = do t' ← update_epoch t; t'' ← increment t'; ok (t'', t'')

unfoldable pub ft_join : ThreadState → ThreadState → Run (ThreadState × ThreadState)
ft_join t u = do
  let (c, d) = extend_vector_clocks t.c u.c
  c' ← join_loop (length c) 0 c d
  t' ← update_epoch (record t { c = c' })
  u' ← increment (record u { c = d })
  ok (t', u')
