-- ===== src/Tests/Programs.antt =====
-- The theorems about whole programs and the statistics at a concrete program: two threads
-- hand a variable over by a lock, and then the first writes to it again without. Also a run of the
-- file dictionary.
use embed_sanitizer.Common.{
  lookup, ℕ, ◌≡◌, refl, true, false, List, [], ◌∷◌, ◌++◌, arith, Returns, ok, if◌then◌else◌,
}
use embed_sanitizer.FileDictionary.{
  FileDictionary, inser_file, save_module, exists, has_file, has_path,
}
use embed_sanitizer.Report.{codes, show_unsigned}
use embed_sanitizer.Interface.{Runtime}
use embed_sanitizer.Trace.{
  Place, Action, read, write, lock, unlock, Event, run, races, happen, happen_all, is_race_free,
  report_of,
}
use embed_sanitizer.Trace.Paced.{Registered, HasTime}
use embed_sanitizer.Trace.Faithful.{AllIn, new_world, run-races}
use embed_sanitizer.Trace.Total.{run-Sound}
use embed_sanitizer.Trace.Stays.{Sound}
use embed_sanitizer.Statistics.{table_size, count_racy, line_of, print_variables}
use embed_sanitizer.Statistics.Programs.{run-print_variables}
use embed_sanitizer.Tests.World.{by_line, counter_name, main_name, nothing_reported}
use embed_sanitizer.Tests.Threads.{
  new_thread, two_threads, two_threads-IsSystem, first_found, second_found, first_epoch,
}

abbrev pub line_five : Place
line_five = record { line_no = 5; obj_name = counter_name; file_name = main_name }

abbrev pub event : ℕ → Action → Event
event self action = record { self = self; action = action }

abbrev pub hand_over : List Event
hand_over =
    event 10 (lock 7)
    ∷ event 10 (write 100 line_five)
    ∷ event 10 (unlock 7)
    ∷ event 20 (lock 7)
    ∷ event 20 (read 100 line_five)
    ∷ []

abbrev pub write_again : Event
write_again = event 10 (write 100 line_five)

abbrev pub start : Runtime
start = record { state = two_threads; reports = nothing_reported }

pub enough_time : HasTime two_threads 6
enough_time k t f = omega (arith, first_epoch k t f)

pub hand_over-AllIn : AllIn two_threads (hand_over ++ write_again ∷ [])
hand_over-AllIn =
    let first : Registered two_threads 10 = (new_thread 1, first_found) in
    let second : Registered two_threads 20 = (new_thread 2, second_found) in
    (first, (first, (first, (second, (second, (first, tt))))))

-- The lock orders the read after the write, and nothing orders the second write after the read.
no_race_yet : is_race_free hand_over (new_world 1) ≡ true
unfolding is_race_free races happen new_world
no_race_yet = refl

then_a_race : races 10 (write 100 line_five) (happen_all hand_over (new_world 1)) ≡ true
unfolding races happen happen_all new_world
then_a_race = refl

run-races_example : Returns (run by_line (hand_over ++ write_again ∷ []) start) λ r'. r'.reports ≡ (
    if races 10 (write 100 line_five) (happen_all hand_over (new_world 1))
    then report_of by_line 10 (write 100 line_five) nothing_reported
    else nothing_reported)
run-races_example =
    run-races by_line start hand_over write_again two_threads-IsSystem refl hand_over-AllIn
      enough_time no_race_yet

-- The same run, as a value.
ended : (r' : Runtime) × (run by_line (hand_over ++ write_again ∷ []) start ≡ ok r')
ended =
    let (r', go, _) =
      run-races by_line start hand_over write_again two_threads-IsSystem refl hand_over-AllIn
        enough_time no_race_yet in
    (r', go)

none_marked : count_racy two_threads.vstates ≡ 0
unfolding count_racy
none_marked = refl

run-print_variables_example :
    print_variables ended.0.state
    ≡ line_of (codes "Addresses: ") (show_unsigned (table_size ended.0.state.vstates))
      ++ line_of (codes "Reads: ") (show_unsigned ended.0.state.reads)
      ++ line_of (codes "Writes: ") (show_unsigned ended.0.state.writes)
      ++ codes "Races: 0\n"
run-print_variables_example =
    run-print_variables by_line (hand_over ++ write_again ∷ []) start ended.0 none_marked ended.1

start-Sound : Sound two_threads
unfolding lookup
start-Sound = record {
  system = two_threads-IsSystem;
  bounded = λ addr x e. absurd (let y = e in cc);
}

run-Sound_example :
    Returns (run by_line (hand_over ++ write_again ∷ []) start) (λ r'. Sound r'.state)
run-Sound_example =
    run-Sound by_line (hand_over ++ write_again ∷ []) start start-Sound hand_over-AllIn enough_time

-- A file is entered once, and a module is none.
abbrev filled : FileDictionary
filled =
    inser_file 3
      (save_module (codes "a.out") (inser_file 3 (record { module_paths = []; files = [] })))

filled_once : (filled.files ≡ 3 ∷ []) × (exists 3 filled ≡ true) × (exists 4 filled ≡ false)
unfolding inser_file save_module exists has_file has_path
filled_once = (refl, refl, refl)
