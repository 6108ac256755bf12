-- ===== src/Tests/Thinned.antt =====
-- The theorems about reads that are left out, at a concrete program: a thread reads and then writes, and another
-- writes in between.
use mathlib.Core.Path.{subst}
use embed_sanitizer.Common.{
  ℕ, zero, suc, ◌≤◌, ◌<◌, ◌≡◌, ◌≢◌, refl, ap, inl, inr, Bool, true, false, [], ◌∷◌, arith,
}
use embed_sanitizer.Ir.{load, store}
use embed_sanitizer.Trace.{
  Action, read, write, create, lock, unlock, join, Event, happen, happen_all,
}
use embed_sanitizer.Trace.Faithful.{AllIn, new_world}
use embed_sanitizer.Trace.Order.{
  HappensBefore, in_thread, started, handed_over, through, HappensBefore-lt, prefix, IsCounted,
}
use embed_sanitizer.Trace.Missed.{Conflict, read_write}
use embed_sanitizer.Trace.Shadowed.{AllCalm, Shadowed}
use embed_sanitizer.Trace.Seen.{thinned, is_kept, is_shadowed}
use embed_sanitizer.Trace.Thinned.{Reported, run-reports_thinned}
use embed_sanitizer.Pass.{choose}
use embed_sanitizer.Pass.Covered.{IsIdle, reads, writes, Executes, done, step, Fate, choose-Fate}
use embed_sanitizer.Tests.World.{by_line}
use embed_sanitizer.Tests.Threads.{
  two_threads, two_threads-IsSystem, new_thread, first_found, second_found,
}
use embed_sanitizer.Tests.Programs.{line_five, event, start, enough_time}
use embed_sanitizer.Tests.Instrument.{stack_and_heap, at_line}

-- The read at position 0 makes no callback.
unfoldable increment : ℕ → Event
increment zero = event 10 (read 2 line_five)
increment (suc zero) = event 20 (write 2 line_five)
increment (suc (suc i)) = event 10 (write 2 line_five)

abbrev is_sync : Action → Bool
is_sync (lock addr) = true
is_sync (unlock addr) = true
is_sync (create child) = true
is_sync (join child) = true
is_sync _ = false

no_sync : (i : ℕ) → is_sync (increment i).action ≢ true
unfolding increment
no_sync zero e = cc
no_sync (suc zero) e = cc
no_sync (suc (suc i)) e = cc

second_only : (j : ℕ) → 1 ≤ j → j < 2 → 1 ≡ j
second_only j lo hi = omega arith

read_Executes : Executes increment 10 (λ a. a) 1 (store (at_line 2 5) ∷ [])
unfolding increment
read_Executes = step 2 (omega arith) idle refl (writes (at_line 2 5) line_five refl) done
  where
    idle : IsIdle increment 10 1 2
    idle j lo hi =
        subst (λ z. ((increment z).self ≢ 10) × ((increment z).action ≢ create 10))
          (second_only j lo hi) ((λ e. omega (arith, e)), λ e. no_sync 1 (ap is_sync e))

choose-Fate_example :
    Fate stack_and_heap increment
      (at_line 2 5)
      0
      (choose stack_and_heap (load (at_line 2 5) ∷ store (at_line 2 5) ∷ []) [])
unfolding increment
choose-Fate_example =
    choose-Fate stack_and_heap increment (λ a. a) [] (store (at_line 2 5) ∷ []) [] (at_line 2 5) 0
      (reads (at_line 2 5) line_five refl) read_Executes

unordered : HappensBefore increment 0 1 → ⊥
unfolding increment
unordered (in_thread lt (inl e)) = omega (arith, e)
unordered (in_thread lt (inr e)) = no_sync 1 (ap is_sync e)
unordered (started c lt e v) = no_sync 0 (ap is_sync e)
unordered (handed_over m lt e f) = no_sync 0 (ap is_sync e)
unordered (through {j = k} p q) =
    omega (arith, HappensBefore-lt increment 0 k p, HappensBefore-lt increment k 1 q)

both_counted : (i : ℕ) → i < 2 → IsCounted (thinned increment suc) (new_world 1) i
unfolding prefix increment happen_all happen new_world
both_counted zero lt = refl
both_counted (suc zero) lt = refl
both_counted (suc (suc i)) lt = absurd (omega arith)

access-Conflict : Conflict (increment 0).action (increment 1).action
unfolding increment
access-Conflict = read_write 2 line_five line_five

read_calm : AllCalm increment 10 0 2
unfolding increment
read_calm zero lo hi = absurd (omega arith)
read_calm (suc zero) lo hi = ((λ e. refl), λ e. no_sync 1 (ap is_sync e))
read_calm (suc (suc j)) lo hi = ((λ e. refl), λ e. no_sync (suc (suc j)) (ap is_sync e))

read_Shadowed : Shadowed increment 0 2
unfolding increment
read_Shadowed = record {
  addr = 2;
  read_at = line_five;
  write_at = line_five;
  later = omega arith;
  own = refl;
  reading = refl;
  writing = refl;
  calm = read_calm;
}

callbacks-AllIn : AllIn two_threads (prefix (thinned increment suc) 2)
unfolding prefix increment
callbacks-AllIn = ((new_thread 2, second_found), ((new_thread 1, first_found), tt))

run-reports_thinned_example : Reported by_line start (thinned increment suc) 2
run-reports_thinned_example =
    run-reports_thinned by_line start increment suc 2 0 1 two_threads-IsSystem refl callbacks-AllIn
      (λ k t f. omega (arith, enough_time k t f)) (λ i j lt. omega (arith, lt))
      (is_shadowed 1 (omega arith, both_counted 1 (omega arith)) read_Shadowed)
      (is_kept 0 (omega arith, both_counted 0 (omega arith)) refl) (omega arith) access-Conflict
      unordered
