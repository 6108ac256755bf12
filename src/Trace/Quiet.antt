-- ===== src/Trace/Quiet.antt =====
-- A program whose conflicting accesses are all ordered is not reported.
use mathlib.Core.Path.{subst}
use embed_sanitizer.Common.{
  ℕ, zero, suc, ◌+◌, ◌<◌, ◌≡◌, ◌∙◌, refl, sym, ap, Bool, true, false, not, ◌&&◌, Bool-cases, inl,
  inr, List, [], ◌∷◌, ◌++◌, arith, length, ◌==◌, eqb_refl, Returns,
}
use embed_sanitizer.Detector.{IsSystem}
use embed_sanitizer.Interface.{Runtime}
use embed_sanitizer.Report.{RaceSet}
use embed_sanitizer.Trace.{
  Place, Action, read, write, lock, unlock, create, join, Event, run, World, all_in, races,
  accessed, happen, happen_all, is_race_free, report_of,
}
use embed_sanitizer.Trace.Paced.{HasTime}
use embed_sanitizer.Trace.Faithful.{AllIn, new_world, new_world-Linked, run-Played}
use embed_sanitizer.Trace.Order.{HappensBefore, prefix, IsCounted, IsIn}
use embed_sanitizer.Trace.Missed.{run-reports_race, Conflict, write_write, read_write, write_read}
use embed_sanitizer.Trace.Handed.{world, world-suc, IsLocking}
use embed_sanitizer.Trace.Placed.{Placed, write-Placed, read-Placed}
use embed_sanitizer.Trace.Alarms.{HappensBefore-known}

-- Whatever is in conflict with the event, both counted, happened before it.
abbrev pub IsOrdered : (ℕ → Event) → ℕ → ℕ → Type 0
IsOrdered tr c n =
    (i : ℕ)
    → i < n
    → Conflict (tr i).action (tr n).action
    → IsCounted tr (new_world c) i
    → IsCounted tr (new_world c) n
    → HappensBefore tr i n

each_known :
    (known : ℕ → Bool) (l : List ℕ) → ((a : ℕ) → IsIn a l → known a ≡ true) → all_in known l ≡ true
each_known known [] h = refl
each_known known (a ∷ l) h = rw (h a (inl refl), each_known known l (λ b m. h b (inr m))) refl

pub is_race_free-snoc :
    (es : List Event) (e : Event) (w : World)
    → is_race_free (es ++ e ∷ []) w
      ≡ (is_race_free es w && not (races e.self e.action (happen_all es w)))
unfolding is_race_free happen_all
is_race_free-snoc [] e w = ground arith
is_race_free-snoc (d ∷ es) e w =
    let later = is_race_free-snoc es e (happen d.self d.action w) in ground (arith, later)

-- What is known after an access was known before, of accesses that were made before.
accessed-known :
    (self a : ℕ) (w : World)
    → a < w.next
    → (accessed self w).known self a ≡ true
    → w.known self a ≡ true
accessed-known self a w lt h =
    let e : (w.next == a) ≡ false = ground arith in rw (eqb_refl self, e) at h

module _ (tr : ℕ → Event) (c : ℕ) (keeps : IsLocking tr) (n : ℕ) (ordered : IsOrdered tr c n)
    (several : ((world tr c n).running == 0) ≡ false) where
  -- The event is a counted access, and an earlier one is in conflict with it.
  Placed-known :
      (a : ℕ) (kind : Place → Action)
      → ((p : Place) → Conflict (kind p) (tr n).action)
      → ((world tr c (suc n)).known (tr n).self a ≡ true
          → a < (world tr c n).next
          → (world tr c n).known (tr n).self a ≡ true)
      → Placed tr c n a kind
      → (world tr c n).known (tr n).self a ≡ true
  Placed-known a kind conflict back p =
      let i = p.at_event in
      let first = subst (λ z. Conflict z (tr n).action) (sym p.action) (conflict p.place) in
      let hb = ordered i p.before first p.counted several in
      back (HappensBefore-known tr c keeps i n a hb p.known) p.past

  read_back :
      (addr a : ℕ) (p : Place)
      → (tr n).action ≡ read addr p
      → (world tr c (suc n)).known (tr n).self a ≡ true
      → a < (world tr c n).next
      → (world tr c n).known (tr n).self a ≡ true
  unfolding happen
  read_back addr a p act h lt =
      let h' : (happen (tr n).self (read addr p) (world tr c n)).known (tr n).self a ≡ true =
        rw act at (sym (ap (λ (z : World). z.known (tr n).self a) (world-suc tr c n)) ∙ h) in
      accessed-known (tr n).self a (world tr c n) lt (rw several at h')

  write_back :
      (addr a : ℕ) (p : Place)
      → (tr n).action ≡ write addr p
      → (world tr c (suc n)).known (tr n).self a ≡ true
      → a < (world tr c n).next
      → (world tr c n).known (tr n).self a ≡ true
  unfolding happen
  write_back addr a p act h lt =
      let h' : (happen (tr n).self (write addr p) (world tr c n)).known (tr n).self a ≡ true =
        rw act at (sym (ap (λ (z : World). z.known (tr n).self a) (world-suc tr c n)) ∙ h) in
      accessed-known (tr n).self a (world tr c n) lt (rw several at h')

  counted-quiet :
      (act : Action) → (tr n).action ≡ act → races (tr n).self act (world tr c n) ≡ false
  unfolding races
  counted-quiet (lock m) e = refl
  counted-quiet (unlock m) e = refl
  counted-quiet (create m) e = refl
  counted-quiet (join m) e = refl
  counted-quiet (read addr p) e =
      let all = each_known ((world tr c n).known (tr n).self) ((world tr c n).writes addr) λ a m.
        Placed-known a (λ q. write addr q)
          (λ q. subst (Conflict (write addr q)) (sym e) (write_read addr q p))
          (read_back addr a p e) (write-Placed tr c n a addr m) in
      rw (several, all) refl
  counted-quiet (write addr p) e =
      let ws = each_known ((world tr c n).known (tr n).self) ((world tr c n).writes addr) λ a m.
        Placed-known a (λ q. write addr q)
          (λ q. subst (Conflict (write addr q)) (sym e) (write_write addr q p))
          (write_back addr a p e) (write-Placed tr c n a addr m) in
      let rs = each_known ((world tr c n).known (tr n).self) ((world tr c n).reads addr) λ a m.
        Placed-known a (λ q. read addr q)
          (λ q. subst (Conflict (read addr q)) (sym e) (read_write addr q p))
          (write_back addr a p e) (read-Placed tr c n a addr m) in
      rw (several, ws, rs) refl

alone-quiet :
    (self : ℕ) (act : Action) (w : World) → (w.running == 0) ≡ true → races self act w ≡ false
unfolding races
alone-quiet self (read addr p) w alone = rw alone refl
alone-quiet self (write addr p) w alone = rw alone refl
alone-quiet self (lock m) w alone = refl
alone-quiet self (unlock m) w alone = refl
alone-quiet self (create m) w alone = refl
alone-quiet self (join m) w alone = refl

ordered-quiet :
    (tr : ℕ → Event) (c n : ℕ)
    → IsLocking tr
    → IsOrdered tr c n
    → races (tr n).self (tr n).action (world tr c n) ≡ false
ordered-quiet tr c n keeps ordered = elim (Bool-cases ((world tr c n).running == 0)) [
  | inl alone ↦ alone-quiet (tr n).self (tr n).action (world tr c n) alone
  | inr several ↦ counted-quiet tr c keeps n ordered several (tr n).action refl
]

all-quiet :
    (tr : ℕ → Event) (c n : ℕ)
    → IsLocking tr
    → ((j : ℕ) → j < n → IsOrdered tr c j)
    → is_race_free (prefix tr n) (new_world c) ≡ true
unfolding prefix is_race_free
all-quiet tr c zero keeps ordered = refl
all-quiet tr c (suc n) keeps ordered =
    let before = all-quiet tr c n keeps (λ j lt. ordered j (omega arith)) in
    let last = ordered-quiet tr c n keeps (ordered n (omega arith)) in
    is_race_free-snoc (prefix tr n) (tr n) (new_world c) ∙ rw (before, last) refl

-- A program on registered threads that starts with no access made, that has epochs left for its events
-- and in which only the thread that holds a lock gives it back: if each access comes after all earlier
-- ones that it is in conflict with, as far as both were made while other threads were counted as
-- running, then the program runs to its end without a fault, and nothing is reported.
pub run-reports_none :
    (set : RaceSet) (r : Runtime) (tr : ℕ → Event) (n : ℕ)
    → IsSystem r.state
    → r.state.vstates ≡ []
    → AllIn r.state (prefix tr n)
    → HasTime r.state (length (prefix tr n))
    → IsLocking tr
    → ((j : ℕ) → j < n → IsOrdered tr r.state.is_concurrent j)
    → Returns (run set (prefix tr n) r) (λ r'. r'.reports ≡ r.reports)
run-reports_none set r tr n sys empty all time keeps ordered =
    let li = new_world-Linked r.state sys empty in
    let (r', go, pl) =
      run-Played set (prefix tr n) r _ _ li all time
        (all-quiet tr r.state.is_concurrent n keeps ordered) in
    (r', go, pl.reports)

-- A program on registered threads that starts with no access made, that has epochs left for its events
-- and in which only the thread that holds a lock gives it back: if each access before the `n`th event
-- comes after all earlier ones that it is in conflict with, and the `n`th is in conflict with an earlier
-- one that did not happen before it, as far as they were made while other threads were counted as
-- running, then the callbacks run without a fault, and that access alone is reported.
pub run-reports_first :
    (set : RaceSet) (r : Runtime) (tr : ℕ → Event) (n i : ℕ)
    → IsSystem r.state
    → r.state.vstates ≡ []
    → AllIn r.state (prefix tr (suc n))
    → HasTime r.state (length (prefix tr n) + 1)
    → IsLocking tr
    → ((j : ℕ) → j < n → IsOrdered tr r.state.is_concurrent j)
    → i < n
    → Conflict (tr i).action (tr n).action
    → IsCounted tr (new_world r.state.is_concurrent) i
    → IsCounted tr (new_world r.state.is_concurrent) n
    → (HappensBefore tr i n → ⊥)
    → Returns
        (run set (prefix tr (suc n)) r)
        λ r'. r'.reports ≡ report_of set (tr n).self (tr n).action r.reports
run-reports_first set r tr n i sys empty all time keeps ordered lt conflict ci cn unordered =
    run-reports_race set r tr n i sys empty all time
      (all-quiet tr r.state.is_concurrent n keeps ordered) lt conflict ci cn unordered
