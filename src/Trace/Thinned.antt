-- ===== src/Trace/Thinned.antt =====
-- Whole programs of which only some accesses make a callback: the runtime reports a race all the same.
use mathlib.Core.Path.{subst}
use embed_sanitizer.Common.{
  ℕ, zero, suc, ◌≤◌, ◌<◌, ◌≡◌, ◌⊎◌, ◌∙◌, refl, sym, true, Bool-cases, inl, inr, [], ◌∷◌, arith,
  length, Returns, length-append,
}
use embed_sanitizer.Detector.{IsSystem}
use embed_sanitizer.Interface.{Runtime}
use embed_sanitizer.Report.{RaceSet}
use embed_sanitizer.State.{State}
use embed_sanitizer.Trace.{Event, run, races, happen_all, is_race_free, report_of}
use embed_sanitizer.Trace.Paced.{HasTime}
use embed_sanitizer.Trace.Faithful.{AllIn, AllIn-prefix, new_world, run-races}
use embed_sanitizer.Trace.Order.{HappensBefore, prefix}
use embed_sanitizer.Trace.Missed.{Conflict}
use embed_sanitizer.Trace.Racing.{first_race}
use embed_sanitizer.Trace.Seen.{thinned, IsMonotone, IsSeen, seen-HappensBefore}

AllIn-first :
    (s : State) (tr : ℕ → Event) (n k : ℕ) → k ≤ n → AllIn s (prefix tr n) → AllIn s (prefix tr k)
unfolding prefix
AllIn-first s tr zero k le all =
    let e : 0 ≡ k = omega arith in subst (λ z. AllIn s (prefix tr z)) e all
AllIn-first s tr (suc n) k le all = elim (all_or_fewer k n le) [
  | inl e ↦ subst (λ z. AllIn s (prefix tr z)) (sym e) all
  | inr fewer ↦ AllIn-first s tr n k fewer (AllIn-prefix s (prefix tr n) (tr n) all).0
]
  where
    all_or_fewer : (i m : ℕ) → i ≤ suc m → (i ≡ suc m) ⊎ (i ≤ m)
    all_or_fewer i m h = ground arith

length-prefix : (tr : ℕ → Event) (n : ℕ) → length (prefix tr n) ≡ n
unfolding prefix
length-prefix tr zero = refl
length-prefix tr (suc n) =
    omega (arith, length-append (prefix tr n) (tr n ∷ []), length-prefix tr n)

-- A run that reports the first race among the callbacks.
pub record Reported (set : RaceSet) (r : Runtime) (tr : ℕ → Event) (n : ℕ) : Type 0 where
  pub at : ℕ
  pub soon : at < n
  pub raced :
      races
        (tr at).self
        (tr at).action
        (happen_all (prefix tr at) (new_world r.state.is_concurrent))
      ≡ true
  pub ran :
      Returns
        (run set (prefix tr (suc at)) r)
        λ r'. r'.reports ≡ report_of set (tr at).self (tr at).action r.reports

-- A program of which only some events make a callback, by registered threads, from a system with no
-- access made and with epochs left: if two of its accesses are in conflict, the first did not happen
-- before the second, and each makes one of the first `n` callbacks, while other threads are counted as
-- running, or is a read that the write of such a callback shadows, then one of the first `n` callbacks
-- is an access that races, the runtime gets to it without a fault, and reports it alone.
pub run-reports_thinned :
    (set : RaceSet) (r : Runtime) (tr : ℕ → Event) (pos : ℕ → ℕ) (n a b : ℕ)
    → IsSystem r.state
    → r.state.vstates ≡ []
    → AllIn r.state (prefix (thinned tr pos) n)
    → HasTime r.state n
    → IsMonotone pos
    → IsSeen tr pos r.state.is_concurrent n a
    → IsSeen tr pos r.state.is_concurrent n b
    → a < b
    → Conflict (tr a).action (tr b).action
    → (HappensBefore tr a b → ⊥)
    → Reported set r (thinned tr pos) n
unfolding prefix
run-reports_thinned set r tr pos n a b sys empty all time mono sa sb lt conflict unordered =
    let c = r.state.is_concurrent in
    let es = thinned tr pos in
    elim (Bool-cases (is_race_free (prefix es n) (new_world c))) [
      | inl free ↦
          absurd (unordered (seen-HappensBefore tr pos mono c n free a b sa sb lt conflict))
      | inr racy ↦
          let f = first_race es c n racy in
          let (r', go, rep) =
            run-races set r (prefix es f.at) (es f.at) sys empty
              (AllIn-first r.state es n (suc f.at) (omega (arith, f.soon)) all)
              (λ k t g. omega (arith, time k t g, length-prefix es f.at, f.soon)) f.free in
          record {
            at = f.at;
            soon = f.soon;
            raced = f.races_there;
            ran = (r', go, rep ∙ rw f.races_there refl);
          }
    ]
