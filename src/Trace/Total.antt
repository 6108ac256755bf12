-- ===== src/Trace/Total.antt =====
-- Every program on registered threads runs to its end, whatever races it has.
use embed_sanitizer.Common.{
  ℕ, refl, Bool-cases, inl, inr, List, [], ◌∷◌, length, arith, Run, Returns, ◌==◌, if◌then◌else◌,
}
use embed_sanitizer.State.{State}
use embed_sanitizer.Interface.{
  Runtime, on_state, tsan_read, tsan_write, tsan_thread_create, tsan_thread_join, tsan_thread_lock,
  tsan_thread_unlock,
}
use embed_sanitizer.Interface.Sync.{
  acquire_state-Synced, release_state-Synced, fork_state-Synced, join_state-Synced,
}
use embed_sanitizer.Interface.Synced.{Synced}
use embed_sanitizer.Report.{RaceSet, report_race_on_read, report_race_on_write}
use embed_sanitizer.Trace.{Action, read, write, lock, unlock, create, join, Event, act, run}
use embed_sanitizer.Trace.Paced.{IsPlayable, HasTime, same-Paced, recounted}
use embed_sanitizer.Trace.Faithful.{AllIn, Paced-AllIn, Paced-HasTime}
use embed_sanitizer.Trace.Stays.{Sound, Stays, Synced-Stays, read_state-Stays, write_state-Stays}

counted-Stays :
    (s s' : State) → Sound s → Synced s (record s' { is_concurrent = s.is_concurrent }) → Stays s s'
counted-Stays s s' so y =
    Synced-Stays s s' so
      (recounted s (record s' { is_concurrent = s.is_concurrent }) s'.is_concurrent y)

on_state-Stays :
    (m : Run State) (r : Runtime)
    → Returns m (Stays r.state)
    → Returns (on_state m r) (λ r'. Stays r.state r'.state)
unfolding on_state
on_state-Stays m r (s', go, st) = (record r { state = s' }, rw go refl, st)

same-Stays : (s : State) → Sound s → Stays s s
same-Stays s so = record { sound = so; paced = same-Paced s s refl }

module _ (set : RaceSet) (r : Runtime) (so : Sound r.state) where
  act-Stays :
      (self : ℕ) (a : Action)
      → IsPlayable r.state self a
      → HasTime r.state 1
      → Returns (act set self a r) (λ r'. Stays r.state r'.state)
  unfolding act tsan_read tsan_write tsan_thread_create tsan_thread_join tsan_thread_lock
      tsan_thread_unlock
  act-Stays self (read addr p) (t, f) time = elim (Bool-cases (r.state.is_concurrent == 0)) [
    | inl alone ↦ (r, rw alone refl, same-Stays r.state so)
    | inr several ↦
        let ((a, s), go, st) = read_state-Stays addr self r.state t so f in
        (
          record {
            state = s;
            reports =
                if a
                then report_race_on_read set p.line_no p.obj_name p.file_name self r.reports
                else r.reports;
          },
          rw (several, go) refl,
          st,
        )
  ]
  act-Stays self (write addr p) (t, f) time = elim (Bool-cases (r.state.is_concurrent == 0)) [
    | inl alone ↦ (r, rw alone refl, same-Stays r.state so)
    | inr several ↦
        let ((a, s), go, st) = write_state-Stays addr self r.state t so f in
        (
          record {
            state = s;
            reports =
                if a
                then report_race_on_write set p.line_no p.obj_name p.file_name self r.reports
                else r.reports;
          },
          rw (several, go) refl,
          st,
        )
  ]
  act-Stays self (lock addr) (t, f) time =
      let (s', go, y) = acquire_state-Synced addr self r.state t so.system f in
      on_state-Stays _ r (s', go, Synced-Stays r.state s' so y)
  act-Stays self (unlock addr) (t, f) time =
      let (s', go, y) =
        release_state-Synced addr self r.state t so.system f (omega (arith, time self t f)) in
      on_state-Stays _ r (s', go, Synced-Stays r.state s' so y)
  act-Stays self (create child) ((t, f), (u, g), ne) time =
      let (s', go, (_, y)) =
        fork_state-Synced child self r.state t u so.system f g ne (omega (arith, time self t f)) in
      on_state-Stays _ r (s', go, counted-Stays r.state s' so y)
  act-Stays self (join child) ((t, f), (u, g), ne) time =
      let (s', go, (_, y)) =
        join_state-Synced child self r.state t u so.system f g ne (omega (arith, time child u g)) in
      on_state-Stays _ r (s', go, counted-Stays r.state s' so y)

-- A program on registered threads of a well-formed system whose variables are within bounds, with an
-- epoch left for each event, runs to its end without a fault, whatever races it has, and leaves such a
-- system again.
pub run-Sound :
    (set : RaceSet) (es : List Event) (r : Runtime)
    → Sound r.state
    → AllIn r.state es
    → HasTime r.state (length es)
    → Returns (run set es r) (λ r'. Sound r'.state)
unfolding run
run-Sound set [] r so all time = (r, refl, so)
run-Sound set (e ∷ es) r so (h, hs) time =
    let (r1, go, st) = act-Stays set r so e.self e.action h (λ k t f. omega (arith, time k t f)) in
    let (r2, go2, so2) =
      run-Sound set es r1 st.sound (Paced-AllIn r.state r1.state es st.paced hs)
        (Paced-HasTime r.state r1.state (length es) st.paced time) in
    (r2, rw go go2, so2)
