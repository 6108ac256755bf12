-- ===== src/Tests/World.antt =====
-- A program with two threads: pthread ids 10 and 20 are threads 1 and 2, each in its first epoch.
use embed_sanitizer.Common.{
  ap, ℕ, ◌≡◌, refl, sym, Bool, false, inl, inr, some, List, [], ◌∷◌, lookup, arith, ◌==◌,
  if◌then◌else◌, ◌||◌, ◌++◌, Bool-cases,
}
use embed_sanitizer.State.{VarState, State}
use embed_sanitizer.Detector.{IsSystem, Tracks, History}
use embed_sanitizer.Detector.First.{first_read-Tracks, first_write-Tracks}
use embed_sanitizer.Interface.Memory.{Remembers, touched-IsSystem, touched-Tracks}
use embed_sanitizer.Report.{codes, CharPtr, Race, RaceSet, Reports}
use embed_sanitizer.Tests.Threads.{first_found, new_thread, two_threads, two_threads-IsSystem}

-- Thread 1 has written to address 100 since.
abbrev pub written_var : VarState
written_var = record { w = 16777217; r = 16777216; rvc = []; racy = false }

abbrev pub written : State
written = record two_threads { vstates = (100, written_var) ∷ []; writes = 1 }

abbrev pub one_write : History
one_write = record { reads = []; writes = 16777217 ∷ [] }

pub written-IsSystem : IsSystem written
written-IsSystem = touched-IsSystem two_threads written.vstates 0 1 1 two_threads-IsSystem

pub written-Tracks : Tracks written written_var one_write
written-Tracks =
    touched-Tracks two_threads written.vstates 0 1 1 written_var one_write two_threads-IsSystem
      (first_write-Tracks two_threads 10 (new_thread 1) two_threads-IsSystem first_found)

pub written-Remembers : Remembers written 100 one_write
unfolding lookup
written-Remembers = record {
  fresh = λ e. cc;
  kept = λ x e. let q : written_var ≡ x = ground arith in rw (sym q) written-Tracks;
}

-- Thread 1 has read from address 100, and nothing else happened.
abbrev pub read_var : VarState
read_var = record { w = 16777216; r = 16777217; rvc = []; racy = false }

abbrev pub read_once : State
read_once = record two_threads { vstates = (100, read_var) ∷ []; reads = 1 }

abbrev pub one_read : History
one_read = record { reads = 16777217 ∷ []; writes = [] }

pub read_once-IsSystem : IsSystem read_once
read_once-IsSystem = touched-IsSystem two_threads read_once.vstates 1 0 1 two_threads-IsSystem

pub read_once-Tracks : Tracks read_once read_var one_read
read_once-Tracks =
    touched-Tracks two_threads read_once.vstates 1 0 1 read_var one_read two_threads-IsSystem
      (first_read-Tracks two_threads 10 (new_thread 1) two_threads-IsSystem first_found)

pub read_found : lookup 100 read_once.vstates ≡ some read_var
unfolding lookup
read_found = refl

pub read_once-Remembers : Remembers read_once 100 one_read
unfolding lookup
read_once-Remembers = record {
  fresh = λ e. cc;
  kept = λ x e. let q : read_var ≡ x = ground arith in rw (sym q) read_once-Tracks;
}

-- A set that keeps one race of each line, in the order of arrival.
abbrev same_line : Race → List Race → Bool
same_line r [] = false
same_line r (q ∷ rs) = (q.line_no == r.line_no) || same_line r rs

pub append_nil : (rs : List Race) → rs ≡ rs ++ []
append_nil [] = refl
append_nil (r ∷ rs) = ap (λ z. r ∷ z) (append_nil rs)

abbrev pub by_line : RaceSet
by_line = record {
  insert_race = λ r rs. if same_line r rs then rs else rs ++ r ∷ [];
  adds = λ r rs. elim (Bool-cases (same_line r rs)) [
    | inl e ↦ inl (rw e refl)
    | inr e ↦ inr (rs, [], append_nil rs, rw e refl)
  ];
}

abbrev pub counter_name : CharPtr
counter_name = record { address = 500; text = codes "counter" }

abbrev pub main_name : CharPtr
main_name = record { address = 600; text = codes "main" }

abbrev pub nothing_reported : Reports
nothing_reported = record { call_stack = []; races = []; output = [] }

abbrev pub in_main : Reports
in_main = record { call_stack = (20, main_name ∷ []) ∷ []; races = []; output = [] }

abbrev pub race_at : ℕ → Race
race_at line = record {
  tid = 20;
  line_no = line;
  access_type = codes "read";
  obj_name = codes "counter";
  file_name = codes "a.c";
  trace = [];
  is_message_created = false;
}
