-- ===== src/Tests/Missed.antt =====
-- The race of the program of Tests/Programs by the order of its events.
use embed_sanitizer.Common.{
  ℕ, zero, suc, ◌+◌, ◌<◌, ◌≡◌, ◌∙◌, refl, sym, ap, inl, inr, [], ◌∷◌, ◌++◌, arith, get_or, length,
  Returns,
}
use embed_sanitizer.Trace.{
  Action, read, write, lock, unlock, create, join, Event, run, happen, happen_all, report_of,
}
use embed_sanitizer.Trace.Faithful.{AllIn, AllIn-prefix, new_world}
use embed_sanitizer.Trace.Paced.{HasTime}
use embed_sanitizer.Trace.Order.{
  HappensBefore, in_thread, started, handed_over, through, HappensBefore-lt, prefix, IsCounted,
}
use embed_sanitizer.Trace.Missed.{Conflict, write_write, read_write, write_read}
use embed_sanitizer.Trace.Handed.{IsLocking}
use embed_sanitizer.Trace.Quiet.{IsOrdered, run-reports_first, run-reports_none}
use embed_sanitizer.Tests.World.{by_line, nothing_reported}
use embed_sanitizer.Tests.Threads.{two_threads, two_threads-IsSystem}
use embed_sanitizer.Tests.Programs.{
  line_five, hand_over, write_again, start, enough_time, hand_over-AllIn,
}

-- The event at each position.
unfoldable program : ℕ → Event
program i = get_or (hand_over ++ write_again ∷ []) i write_again

kind : Action → ℕ
kind (read addr p) = 0
kind (write addr p) = 1
kind (lock addr) = 2
kind (unlock addr) = 3
kind (create child) = 4
kind (join child) = 5

-- The last write, at position 5, does not come after the read at 4.
unordered : HappensBefore program 4 5 → ⊥
unfolding program get_or kind
unordered (in_thread lt (inl e)) = omega (arith, e)
unordered (in_thread lt (inr e)) = omega (arith, ap kind e)
unordered (started c lt e v) = omega (arith, ap kind e)
unordered (handed_over m lt e f) = omega (arith, ap kind f)
unordered (through {j = k} p q) =
    omega (arith, HappensBefore-lt program 4 k p, HappensBefore-lt program k 5 q)

-- Of two accesses in conflict, each is a read or a write, and not both are reads.
Conflict-kind : (a b : Action) → Conflict a b → (kind a < 2) × (kind b < 2) × (0 < kind a + kind b)
unfolding kind
Conflict-kind _ _ (write_write addr p q) = (omega arith, omega arith, omega arith)
Conflict-kind _ _ (read_write addr p q) = (omega arith, omega arith, omega arith)
Conflict-kind _ _ (write_read addr p q) = (omega arith, omega arith, omega arith)

-- The read comes after the first write: by the lock that is handed over.
write_before_read : HappensBefore program 1 4
unfolding program get_or
write_before_read =
    through {j = 2} (in_thread (omega arith) (inl refl))
      (through {j = 3} (handed_over 7 (omega arith) refl refl) (in_thread (omega arith) (inl refl)))

so_far-IsOrdered : (j : ℕ) → j < 5 → IsOrdered program 1 j
unfolding program get_or kind
so_far-IsOrdered zero h i lt conflict ci cn = absurd (omega arith)
so_far-IsOrdered (suc zero) h zero lt conflict ci cn =
    absurd (omega (arith, (Conflict-kind _ _ conflict).0))
so_far-IsOrdered (suc zero) h (suc i) lt conflict ci cn = absurd (omega arith)
so_far-IsOrdered (suc (suc zero)) h i lt conflict ci cn =
    absurd (omega (arith, (Conflict-kind _ _ conflict).1))
so_far-IsOrdered (suc (suc (suc zero))) h i lt conflict ci cn =
    absurd (omega (arith, (Conflict-kind _ _ conflict).1))
so_far-IsOrdered (suc (suc (suc (suc zero)))) h zero lt conflict ci cn =
    absurd (omega (arith, (Conflict-kind _ _ conflict).0))
so_far-IsOrdered (suc (suc (suc (suc zero)))) h (suc zero) lt conflict ci cn = write_before_read
so_far-IsOrdered (suc (suc (suc (suc zero)))) h (suc (suc zero)) lt conflict ci cn =
    absurd (omega (arith, (Conflict-kind _ _ conflict).0))
so_far-IsOrdered (suc (suc (suc (suc zero)))) h (suc (suc (suc zero))) lt conflict ci cn =
    absurd (omega (arith, (Conflict-kind _ _ conflict).0))
so_far-IsOrdered (suc (suc (suc (suc zero)))) h (suc (suc (suc (suc i)))) lt conflict ci cn =
    absurd (omega arith)
so_far-IsOrdered (suc (suc (suc (suc (suc j))))) h i lt conflict ci cn = absurd (omega arith)

address : Action → ℕ
address (unlock addr) = addr
address _ = 0

-- Thread 10 takes the lock at position 0 and gives it back at position 2, and no other is given back.
keeps_to_locks : IsLocking program
unfolding program get_or kind address
keeps_to_locks m zero e = absurd (omega (arith, ap kind e))
keeps_to_locks m (suc zero) e = absurd (omega (arith, ap kind e))
keeps_to_locks m (suc (suc zero)) e = record {
  since = 0;
  before = omega arith;
  taken = ap lock (ap address e);
  same = refl;
  held = λ j lo hi f.
      let now : j ≡ 1 = omega arith in
      omega (arith, ap kind (sym f ∙ ap (λ z. (program z).action) now));
}
keeps_to_locks m (suc (suc (suc zero))) e = absurd (omega (arith, ap kind e))
keeps_to_locks m (suc (suc (suc (suc zero)))) e = absurd (omega (arith, ap kind e))
keeps_to_locks m (suc (suc (suc (suc (suc zero))))) e = absurd (omega (arith, ap kind e))
keeps_to_locks m (suc (suc (suc (suc (suc (suc p)))))) e = absurd (omega (arith, ap kind e))

all_registered : AllIn start.state (prefix program 6)
unfolding prefix program get_or
all_registered = hand_over-AllIn

most_registered : AllIn start.state (prefix program 5)
unfolding prefix program get_or
most_registered = (AllIn-prefix two_threads hand_over write_again hand_over-AllIn).0

time_left : HasTime start.state (length (prefix program 5) + 1)
unfolding prefix program get_or
time_left = enough_time

time_before : HasTime start.state (length (prefix program 5))
unfolding prefix program get_or
time_before k t f = omega (arith, enough_time k t f)

counted : (IsCounted program (new_world 1) 4) × (IsCounted program (new_world 1) 5)
unfolding prefix program get_or happen_all happen new_world
counted = (refl, refl)

accesses-Conflict : Conflict (program 4).action (program 5).action
unfolding program get_or
accesses-Conflict = read_write 100 line_five line_five

run-reports_first_example :
    Returns
      (run by_line (prefix program 6) start)
      λ r'. r'.reports ≡ report_of by_line (program 5).self (program 5).action nothing_reported
run-reports_first_example =
    run-reports_first by_line start program 5 4 two_threads-IsSystem refl all_registered time_left
      keeps_to_locks so_far-IsOrdered (omega arith) accesses-Conflict counted.0 counted.1 unordered

run-reports_none_example :
    Returns (run by_line (prefix program 5) start) (λ r'. r'.reports ≡ nothing_reported)
run-reports_none_example =
    run-reports_none by_line start program 5 two_threads-IsSystem refl most_registered time_before
      keeps_to_locks so_far-IsOrdered
