-- ===== src/Tests/Examples.antt =====
-- The theorems about the runtime at concrete threads, variables and reports.
use embed_sanitizer.Common.{
  ◌+◌, ◌≡◌, ◌⊎◌, refl, inl, true, List, [], ◌∷◌, ◌++◌, arith, get_or, set, fault, out_of_range,
  Returns,
}
use embed_sanitizer.Clock.{u32, new_vector_clock}
use embed_sanitizer.State.{get_state}
use embed_sanitizer.State.Register.{get_state-unknown}
use embed_sanitizer.FastTrack.{ft_read, ft_write, ft_acquire, ft_fork}
use embed_sanitizer.FastTrack.Sync.{ft_acquire-Joined, ft_fork-Ticked}
use embed_sanitizer.FastTrack.Ticks.{Joined, Ticked, Same}
use embed_sanitizer.Detector.{all_known, read_races, write_races, add_read, add_write}
use embed_sanitizer.Detector.Read.{Exact, ft_read-Exact}
use embed_sanitizer.Detector.Write.{ft_write-Exact}
use embed_sanitizer.Report.{
  report_race_on_read, report_race_on_write, codes, message, race_compare, print_races, report_race,
  push_function, pop_function,
}
use embed_sanitizer.Report.Printing.{
  Printed, printed, reported, print_races-print_races, report_race-once,
}
use embed_sanitizer.Report.Stack.{frames, pop_function-push_function, Exit, pop_function-Exit}
use embed_sanitizer.Report.Compare.{race_compare-both}
use embed_sanitizer.Common.{if◌then◌else◌}
use embed_sanitizer.Interface.{
  tsan_vptr_read, Runtime, tsan_read, tsan_write, acquire_state, release_state, fork_state,
  join_state,
}
use embed_sanitizer.Interface.Sync.{
  acquire_state-Synced, release_state-Synced, fork_state-Synced, join_state-Synced,
}
use embed_sanitizer.Interface.Synced.{Synced}
use embed_sanitizer.Interface.Callback.{
  tsan_vptr_read-write_races, Reported, tsan_read-Reported, tsan_write-Reported,
}
use embed_sanitizer.Tests.World.{
  read_var, read_once, one_read, read_once-IsSystem, read_found, read_once-Remembers, written,
  written_var, one_write, written-IsSystem, written-Tracks, written-Remembers, by_line,
  counter_name, main_name, in_main, race_at,
}
use embed_sanitizer.Tests.Threads.{
  own_clock, new_thread, new_thread-IsThread, other_entry, two_threads, two_threads-IsSystem,
  first_found, second_found, third_missing,
}

ft_read-Exact_example :
    Returns
      (ft_read 3 0 written_var (new_thread 2))
      (Exact written (read_races (own_clock 2) one_write) (add_read 33554433 one_write) 0)
ft_read-Exact_example =
    ft_read-Exact written 20 (new_thread 2) written-IsSystem second_found written_var one_write
      written-Tracks 0

ft_write-Exact_example :
    Returns
      (ft_write 1 written_var (new_thread 2))
      (Exact written (write_races (own_clock 2) one_write) (add_write 33554433 one_write) 1)
ft_write-Exact_example =
    ft_write-Exact written 20 (new_thread 2) written-IsSystem second_found written_var one_write
      written-Tracks 1

-- That access is a race.
read_is_race : read_races (own_clock 2) one_write ≡ true
unfolding read_races all_known get_or set new_vector_clock
read_is_race = refl

acquire_state-Synced_example : Returns (acquire_state 7 10 two_threads) (Synced two_threads)
acquire_state-Synced_example =
    acquire_state-Synced 7 10 two_threads (new_thread 1) two_threads-IsSystem first_found

release_state-Synced_example : Returns (release_state 7 10 two_threads) (Synced two_threads)
release_state-Synced_example =
    release_state-Synced 7 10 two_threads (new_thread 1) two_threads-IsSystem first_found
      (omega arith)

fork_state-Synced_example :
    Returns
      (fork_state 20 10 two_threads)
      λ s. (s.is_concurrent ≡ u32 (1 + 1)) × Synced two_threads (record s { is_concurrent = 1 })
fork_state-Synced_example =
    fork_state-Synced 20 10 two_threads (new_thread 1) (new_thread 2) two_threads-IsSystem
      first_found second_found (omega arith) (omega arith)

join_state-Synced_example :
    Returns
      (join_state 20 10 two_threads)
      λ s. (s.is_concurrent ≡ 0) × Synced two_threads (record s { is_concurrent = 1 })
join_state-Synced_example =
    join_state-Synced 20 10 two_threads (new_thread 1) (new_thread 2) two_threads-IsSystem
      first_found second_found (omega arith) (omega arith)

ft_acquire-Joined_example :
    Returns
      (ft_acquire (new_thread 1) (own_clock 2))
      λ r. Joined (new_thread 1) (own_clock 2) r.0 × Same (own_clock 2) r.1
ft_acquire-Joined_example =
    ft_acquire-Joined (new_thread 1) (own_clock 2) (new_thread-IsThread 1 (omega arith))
      ((new_thread-IsThread 2 (omega arith)).clocks)
      (omega (arith, other_entry 2 1 (omega arith) refl))

ft_fork-Ticked_example :
    Returns
      (ft_fork (new_thread 1) (new_thread 2))
      λ r. Ticked (new_thread 1) 3 r.0 × Joined (new_thread 2) (own_clock 1) r.1
unfolding set new_vector_clock
ft_fork-Ticked_example =
    ft_fork-Ticked (new_thread 1) (new_thread 2) (new_thread-IsThread 1 (omega arith))
      (new_thread-IsThread 2 (omega arith)) (omega arith)
      (omega (arith, other_entry 1 2 (omega arith) refl))

get_state-unknown_example : get_state 30 two_threads ≡ fault out_of_range
get_state-unknown_example = get_state-unknown 30 two_threads third_missing

report_race-once_example :
    let s' = report_race by_line (codes "read") 12 counter_name main_name 20 in_main in
    Printed s'.races
    × (((s'.races ≡ []) × (s'.output ≡ []))
        ⊎ ((before : List _) × (after : List _) × ([] ≡ before ++ after)
            × (s'.races
                ≡ before
                  ++ printed (reported by_line (codes "read") 12 counter_name main_name 20 in_main)
                    ∷ after)
            × (s'.output
                ≡ []
                  ++ message
                      (reported by_line (codes "read") 12 counter_name main_name 20 in_main))))
report_race-once_example =
    report_race-once by_line (codes "read") 12 counter_name main_name 20 in_main tt

print_races-print_races_example :
    print_races (print_races (record in_main { races = race_at 3 ∷ race_at 5 ∷ [] }))
    ≡ print_races (record in_main { races = race_at 3 ∷ race_at 5 ∷ [] })
print_races-print_races_example =
    print_races-print_races (record in_main { races = race_at 3 ∷ race_at 5 ∷ [] })

pop_function-push_function_example :
    let s' = pop_function counter_name 20 (push_function counter_name 20 in_main) in
    (frames 20 s' ≡ frames 20 in_main) × (s'.output ≡ []) × (s'.races ≡ [])
pop_function-push_function_example = pop_function-push_function counter_name 20 20 in_main

pop_function-Exit_example : Exit counter_name 20 in_main (pop_function counter_name 20 in_main)
pop_function-Exit_example = pop_function-Exit counter_name 20 in_main

race_compare-both_example :
    (race_compare (race_at 3) (race_at 5) ≡ true) × (race_compare (race_at 5) (race_at 3) ≡ true)
race_compare-both_example =
    race_compare-both (race_at 3) (race_at 5) refl (omega arith) (omega arith) (inl (omega arith))

abbrev running : Runtime
running = record { state = written; reports = in_main }

tsan_read-Reported_example : Returns (tsan_read by_line 100 12 counter_name main_name 20 running) (
    Reported 100
      (read_races (own_clock 2) one_write)
      (report_race_on_read by_line 12 counter_name main_name 20)
      (add_read 33554433 one_write)
      running)
tsan_read-Reported_example =
    tsan_read-Reported by_line 100 12 counter_name main_name 20 running (new_thread 2) one_write
      refl written-IsSystem second_found written-Remembers

tsan_write-Reported_example :
    Returns (tsan_write by_line true 100 12 counter_name main_name 20 running) (
      Reported 100
        (write_races (own_clock 2) one_write)
        (report_race_on_write by_line 12 counter_name main_name 20)
        (add_write 33554433 one_write)
        running)
tsan_write-Reported_example =
    tsan_write-Reported by_line 100 12 counter_name main_name 20 running (new_thread 2) one_write
      refl written-IsSystem second_found written-Remembers

-- Thread 2 reads a virtual pointer that thread 1 has read.
tsan_vptr_read-write_races_example :
    Returns
      (tsan_vptr_read by_line 100 12 counter_name main_name 20
        (record { state = read_once; reports = in_main }))
      λ r'. r'.reports ≡ (
        if write_races (own_clock 2) one_read
        then report_race_on_write by_line 12 counter_name main_name 20 in_main
        else in_main)
tsan_vptr_read-write_races_example =
    tsan_vptr_read-write_races by_line 100 12 counter_name main_name 20
      (record { state = read_once; reports = in_main }) (new_thread 2) one_read refl
      read_once-IsSystem second_found read_once-Remembers read_var read_found

-- That is reported as a race, though there was no write.
vptr_read_is_race : write_races (own_clock 2) one_read ≡ true
unfolding write_races all_known get_or set new_vector_clock
vptr_read_is_race = refl
