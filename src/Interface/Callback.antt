-- ===== src/Interface/Callback.antt =====
-- The callbacks for reads and writes in a program that runs several threads.
use embed_sanitizer.Common.{
  ℕ, ◌≡◌, refl, Bool, true, false, some, lookup, Returns, ◌==◌, if◌then◌else◌,
}
use mathlib.Core.Path.{subst}
use embed_sanitizer.Detector.Write.{ft_write-Exact}
use embed_sanitizer.Interface.Synced.{get_state-found}
use embed_sanitizer.Common.{insert}
use embed_sanitizer.Interface.{tsan_vptr_read, write_state}
use embed_sanitizer.Interface.Memory.{get_var_state-found}
use embed_sanitizer.State.{VarState, ThreadState}
use embed_sanitizer.Report.{CharPtr, Reports, RaceSet, report_race_on_read, report_race_on_write}
use embed_sanitizer.Detector.{IsSystem, History, read_races, write_races, add_read, add_write}
use embed_sanitizer.Interface.{Runtime, tsan_read, tsan_write}
use embed_sanitizer.Interface.Memory.{Remembers, Answers, read_state-Answers, write_state-Answers}

-- What a callback leaves: a report if there is a race, else none, and a table that remembers.
pub record Reported (addr : ℕ) (races : Bool) (report : Reports → Reports) (h : History)
    (r r' : Runtime) : Type 0 where
  pub answers : Answers addr r.state races h (races, r'.state)
  pub reports : r'.reports ≡ (if races then report r.reports else r.reports)

module _ (set : RaceSet) (addr line_no : ℕ) (obj_name file_name : CharPtr) (self : ℕ) (r : Runtime)
    (t : ThreadState) (h : History) (several : (r.state.is_concurrent == 0) ≡ false)
    (i : IsSystem r.state) (e : lookup self r.state.threads ≡ some t)
    (mem : Remembers r.state addr h) where
  -- While several threads run, a read by a registered thread reports a race exactly if some earlier
  -- write to the address did not happen before it; without a race the table remembers the read,
  -- and what it remembered of every other address it remembers still.
  pub tsan_read-Reported : Returns (tsan_read set addr line_no obj_name file_name self r) (
      Reported addr
        (read_races t.c h)
        (report_race_on_read set line_no obj_name file_name self)
        (add_read t.epoch h)
        r)
  unfolding tsan_read
  tsan_read-Reported =
      let ((a, s), run, ans) = read_state-Answers addr self r.state t h i e mem in
      (
        record {
          state = s;
          reports =
              if a
              then report_race_on_read set line_no obj_name file_name self r.reports
              else r.reports;
        },
        rw (several, run) refl,
        record {
          answers =
              subst (λ b. Answers addr r.state (read_races t.c h) (add_read t.epoch h) (b, s))
                ans.exact ans;
          reports = rw ans.exact refl;
        },
      )

  -- While several threads run, a write by a registered thread reports a race exactly if some earlier
  -- access to the address did not happen before it; without a race the table remembers the write,
  -- and what it remembered of every other address it remembers still.
  pub tsan_write-Reported : Returns (tsan_write set true addr line_no obj_name file_name self r) (
      Reported addr
        (write_races t.c h)
        (report_race_on_write set line_no obj_name file_name self)
        (add_write t.epoch h)
        r)
  unfolding tsan_write
  tsan_write-Reported =
      let ((a, s), run, ans) = write_state-Answers addr self r.state t h i e mem in
      (
        record {
          state = s;
          reports =
              if a
              then report_race_on_write set line_no obj_name file_name self r.reports
              else r.reports;
        },
        rw (several, run) refl,
        record {
          answers =
              subst (λ b. Answers addr r.state (write_races t.c h) (add_write t.epoch h) (b, s))
                ans.exact ans;
          reports = rw ans.exact refl;
        },
      )

  -- While several threads run, a read of a virtual pointer that was accessed before is reported exactly
  -- as a write would be: it races with earlier reads too, and the report calls it a write.
  pub tsan_vptr_read-write_races :
      (x : VarState)
      → lookup addr r.state.vstates ≡ some x
      → Returns (tsan_vptr_read set addr line_no obj_name file_name self r) λ r'. r'.reports ≡ (
          if write_races t.c h
          then report_race_on_write set line_no obj_name file_name self r.reports
          else r.reports)
  unfolding tsan_vptr_read tsan_write write_state
  tsan_vptr_read-write_races x f =
      let s = r.state in
      let (a, run, ex) = ft_write-Exact s self t i e x h (mem.kept x f) s.writes in
      (
        record {
          state = record s { writes = a.count; vstates = insert addr a.var s.vstates };
          reports =
              if a.is_racy
              then report_race_on_write set line_no obj_name file_name self r.reports
              else r.reports;
        },
        rw (several, get_var_state-found addr false self s x f, get_state-found self s t e, run)
            refl,
        rw ex.exact refl,
      )
