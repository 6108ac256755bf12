-- ===== src/Interface.antt =====
-- The callbacks that instrumented code makes, etsan/tsan_interface.cc. `self` is the pthread id of
-- the thread that runs the callback, `pthread_self()`.
pub mod Half
pub mod Synced
pub mod Sync
pub mod Memory
pub mod Callback
use embed_sanitizer.Common.{
  ℕ, ◌+◌, ◌-◌, Bool, true, false, not, Option, none, List, lookup, insert, Run, ok, ◌>>=◌, ◌==◌,
  if◌then◌else◌, ltb, ◌++◌,
}
use embed_sanitizer.Clock.{VectorClock, u32}
use embed_sanitizer.State.{State, ThreadState, VarState, get_state, get_var_state, get_lock_state}
use embed_sanitizer.FastTrack.{
  Access, ft_read, ft_write, ft_acquire, ft_release, ft_fork, ft_join, ft_alone,
}
use embed_sanitizer.Report.{
  codes, CharPtr, Reports, RaceSet, report_race_on_read, report_race_on_write, print_races,
  push_function, pop_function,
}

-- All that the runtime keeps.
pub record Runtime : Type 0 where
  pub state : State
  pub reports : Reports

-- `ft_read(getVarState(addr, false), getThreadState())`, with the counter and the variable stored.
unfoldable pub read_state : ℕ → ℕ → State → Run (Bool × State)
read_state addr self s = do
  (x, s1) ← get_var_state addr false self s
  (t, s2) ← get_state self s1
  a ← ft_read s2.num_threads s2.reads x t
  ok (a.is_racy, record s2 { reads = a.count; vstates = insert addr a.var s2.vstates })

-- `ft_write(getVarState(addr, is_write), getThreadState())`
unfoldable pub write_state : Bool → ℕ → ℕ → State → Run (Bool × State)
write_state is_write addr self s = do
  (x, s1) ← get_var_state addr is_write self s
  (t, s2) ← get_state self s1
  a ← ft_write s2.writes x t
  ok (a.is_racy, record s2 { writes = a.count; vstates = insert addr a.var s2.vstates })

-- A thread is started: `isConcurrent++` is the first step of `ft_fork`. The parent's reference
-- sees what `getState` does to it for the child.
unfoldable pub fork_state : ℕ → ℕ → State → Run State
fork_state child self s = do
  (_, s1) ← get_state self s
  (u, s2) ← get_state child s1
  (t, s3) ← get_state self s2
  (t', u') ← if self == child then ft_alone t else ft_fork t u
  ok (record s3 {
    threads = insert self t' (insert child u' s3.threads);
    is_concurrent = u32 (s3.is_concurrent + 1);
  })

unfoldable pub join_state : ℕ → ℕ → State → Run State
join_state child self s = do
  (_, s1) ← get_state self s
  (u, s2) ← get_state child s1
  (t, s3) ← get_state self s2
  (t', u') ← if self == child then ft_alone t else ft_join t u
  ok (record s3 {
    threads = insert child u' (insert self t' s3.threads);
    is_concurrent = if s3.is_concurrent == 0 then 0 else s3.is_concurrent - 1;
  })

unfoldable pub acquire_state : ℕ → ℕ → State → Run State
acquire_state lock self s = do
  (t, s1) ← get_state self s
  let (l, s2) = get_lock_state lock s1
  (t', l') ← ft_acquire t l
  ok (record s2 { threads = insert self t' s2.threads; locks = insert lock l' s2.locks })

unfoldable pub release_state : ℕ → ℕ → State → Run State
release_state lock self s = do
  (t, s1) ← get_state self s
  let (l, s2) = get_lock_state lock s1
  (t', l') ← ft_release t l
  ok (record s2 { threads = insert self t' s2.threads; locks = insert lock l' s2.locks })

-- The synchronisation callbacks leave the reports alone.
unfoldable pub on_state : Run State → Runtime → Run Runtime
on_state run r = do s ← run; ok (record r { state = s })

unfoldable pub tsan_thread_create : ℕ → ℕ → Runtime → Run Runtime
unfolding on_state fork_state
tsan_thread_create child self r = on_state (fork_state child self r.state) r

unfoldable pub tsan_thread_join : ℕ → ℕ → Runtime → Run Runtime
unfolding on_state join_state
tsan_thread_join child self r = on_state (join_state child self r.state) r

unfoldable pub tsan_thread_lock : ℕ → ℕ → Runtime → Run Runtime
unfolding on_state acquire_state
tsan_thread_lock lock self r = on_state (acquire_state lock self r.state) r

unfoldable pub tsan_thread_unlock : ℕ → ℕ → Runtime → Run Runtime
unfolding on_state release_state
tsan_thread_unlock lock self r = on_state (release_state lock self r.state) r

unfoldable pub tsan_func_entry : CharPtr → ℕ → Runtime → Runtime
tsan_func_entry func_name self r = record r { reports = push_function func_name self r.reports }

unfoldable pub tsan_func_exit : CharPtr → ℕ → Runtime → Runtime
tsan_func_exit func_name self r = record r { reports = pop_function func_name self r.reports }

unfoldable pub tsan_init : Runtime → Runtime
tsan_init r = record r {
  reports = record (r.reports) {
    output = r.reports.output ++ codes "EmbedSanitizer initializing\n";
  };
}

-- The callbacks for atomic operations: `ft_atomic_load` of etsan/fasttrack.h prints a warning, and none of
-- them has a `return`, so that there is no result.
unfoldable pub ft_atomic_load : Reports → Reports
ft_atomic_load r = record r {
  output = r.output ++ codes "EmbedSanitizer: Warning, atomic load not implemented!\n";
}

-- `__tsan_atomic8_load` to `__tsan_atomic32_load`
unfoldable pub tsan_atomic_load : Runtime → Runtime × Option ℕ
unfolding ft_atomic_load
tsan_atomic_load r = (record r { reports = ft_atomic_load r.reports }, none)

-- `__tsan_atomic32_fetch_add`
unfoldable pub tsan_atomic_fetch_add : Runtime → Runtime × Option ℕ
tsan_atomic_fetch_add r =
    let warning = codes "EmbedSanitizer: atomic_fetch_add not implemented\n" in
    (record r { reports = record (r.reports) { output = r.reports.output ++ warning } }, none)

unfoldable pub tsan_main_func_exit : Runtime → Runtime
tsan_main_func_exit r = record r { reports = print_races r.reports }

module _ (set : RaceSet) where
  -- The body that `__tsan_read1` to `__tsan_read16` and the unaligned reads share.
  unfoldable pub tsan_read : ℕ → ℕ → CharPtr → CharPtr → ℕ → Runtime → Run Runtime
  tsan_read addr line_no obj_name file_name self r =
      if r.state.is_concurrent == 0 then ok r else (do
        (race, s) ← read_state addr self r.state
        ok (record {
          state = s;
          reports =
              if race
              then report_race_on_read set line_no obj_name file_name self r.reports
              else r.reports;
        }))

  unfoldable pub tsan_unaligned_read : ℕ → ℕ → CharPtr → CharPtr → ℕ → Runtime → Run Runtime
  unfolding tsan_read
  tsan_unaligned_read = tsan_read

  -- The body that the callbacks for writes and for virtual pointers share; `is_write` is what they
  -- hand to `getVarState`.
  unfoldable pub tsan_write : Bool → ℕ → ℕ → CharPtr → CharPtr → ℕ → Runtime → Run Runtime
  tsan_write is_write addr line_no obj_name file_name self r =
      if r.state.is_concurrent == 0 then ok r else (do
        (race, s) ← write_state is_write addr self r.state
        ok (record {
          state = s;
          reports =
              if race
              then report_race_on_write set line_no obj_name file_name self r.reports
              else r.reports;
        }))

  unfoldable pub tsan_unaligned_write : ℕ → ℕ → CharPtr → CharPtr → ℕ → Runtime → Run Runtime
  unfolding tsan_write
  tsan_unaligned_write = tsan_write true

  -- `new_val` is not used.
  unfoldable pub tsan_vptr_update : ℕ → ℕ → ℕ → CharPtr → CharPtr → ℕ → Runtime → Run Runtime
  unfolding tsan_write
  tsan_vptr_update vptr_p new_val = tsan_write true vptr_p

  unfoldable pub tsan_vptr_read : ℕ → ℕ → CharPtr → CharPtr → ℕ → Runtime → Run Runtime
  unfolding tsan_write
  tsan_vptr_read = tsan_write false
