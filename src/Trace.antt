-- ===== src/Trace.antt =====
-- Whole programs: the callbacks of etsan/tsan_interface.cc in the order in which they are made, and the
-- races that the order of events in the program itself makes, told without clocks.
pub mod Knowledge
pub mod Gain
pub mod Moves
pub mod Linked
pub mod Accessed
pub mod Paced
pub mod Steps
pub mod Accesses
pub mod Faithful
pub mod Stays
pub mod Total
pub mod Order
pub mod Ordered
pub mod Counted
pub mod Missed
pub mod Shadowed
pub mod Racing
pub mod Seen
pub mod Thinned
pub mod Handed
pub mod Placed
pub mod Alarms
pub mod Quiet
use embed_sanitizer.Common.{
  ℕ, suc, ◌+◌, ◌-◌, Bool, true, false, not, ◌&&◌, ◌||◌, some, List, [], ◌∷◌, lookup, Run, ok, ◌>>=◌,
  ◌==◌, if◌then◌else◌,
}
use embed_sanitizer.Clock.{u32}
use embed_sanitizer.State.{ThreadState, State}
use embed_sanitizer.Report.{CharPtr, RaceSet, Reports, report_race_on_read, report_race_on_write}
use embed_sanitizer.Interface.{
  Runtime, tsan_read, tsan_write, tsan_thread_create, tsan_thread_join, tsan_thread_lock,
  tsan_thread_unlock,
}

-- Where an access stands in the source.
pub record Place : Type 0 where
  pub line_no : ℕ
  pub obj_name : CharPtr
  pub file_name : CharPtr

pub data Action : Type 0 where
  read write : (addr : ℕ) → Place → Action
  lock unlock : (addr : ℕ) → Action
  create join : (child : ℕ) → Action

-- The thread that acts, by its pthread id.
pub record Event : Type 0 where
  pub self : ℕ
  pub action : Action

module _ (set : RaceSet) where
  unfoldable pub act : ℕ → Action → Runtime → Run Runtime
  act self (read addr p) r = tsan_read set addr p.line_no p.obj_name p.file_name self r
  act self (write addr p) r = tsan_write set true addr p.line_no p.obj_name p.file_name self r
  act self (lock addr) r = tsan_thread_lock addr self r
  act self (unlock addr) r = tsan_thread_unlock addr self r
  act self (create child) r = tsan_thread_create child self r
  act self (join child) r = tsan_thread_join child self r

  unfoldable pub run : List Event → Runtime → Run Runtime
  unfolding act
  run [] r = ok r
  run (e ∷ es) r = do r' ← act e.self e.action r; run es r'

-- The accesses are numbered as they come. A thread knows the accesses that happened before its next
-- action, a lock those that it hands on. `running` counts the threads that were started and not yet
-- waited for: without one, accesses are left out.
pub record World : Type 0 where
  pub known : ℕ → ℕ → Bool
  pub handed : ℕ → ℕ → Bool
  pub reads : ℕ → List ℕ
  pub writes : ℕ → List ℕ
  pub next : ℕ
  pub running : ℕ

abbrev pub all_in : (ℕ → Bool) → List ℕ → Bool
all_in known [] = true
all_in known (a ∷ rest) = known a && all_in known rest

-- An access races with an earlier one to the address that did not happen before it, unless both read.
unfoldable pub races : ℕ → Action → World → Bool
races self (read addr p) w = not (w.running == 0) && not (all_in (w.known self) (w.writes addr))
races self (write addr p) w =
    not (w.running == 0)
    && not (all_in (w.known self) (w.writes addr) && all_in (w.known self) (w.reads addr))
races self _ w = false

-- The function `f`, but `v` at `k`.
abbrev pub at_key {ℓ} : {A : Type ℓ} → ℕ → A → (ℕ → A) → ℕ → A
at_key k v f j = if k == j then v else f j

abbrev pub either : (ℕ → Bool) → (ℕ → Bool) → ℕ → Bool
either f g a = f a || g a

-- The world with one more access, which its thread knows.
abbrev pub accessed : ℕ → World → World
accessed self w = record w {
  known = at_key self (at_key w.next true (w.known self)) w.known;
  next = suc w.next;
}

unfoldable pub happen : ℕ → Action → World → World
happen self (read addr p) w =
    if w.running == 0
    then w
    else record (accessed self w) { reads = at_key addr (w.next ∷ w.reads addr) w.reads }
happen self (write addr p) w =
    if w.running == 0
    then w
    else record (accessed self w) { writes = at_key addr (w.next ∷ w.writes addr) w.writes }
happen self (lock addr) w = record w {
  known = at_key self (either (w.known self) (w.handed addr)) w.known;
}
happen self (unlock addr) w = record w { handed = at_key addr (w.known self) w.handed }
happen self (create child) w = record w {
  known = at_key child (either (w.known child) (w.known self)) w.known;
  running = u32 (w.running + 1);
}
happen self (join child) w = record w {
  known = at_key self (either (w.known self) (w.known child)) w.known;
  running = w.running - 1;
}

unfoldable pub happen_all : List Event → World → World
unfolding happen
happen_all [] w = w
happen_all (e ∷ es) w = happen_all es (happen e.self e.action w)

unfoldable pub is_race_free : List Event → World → Bool
unfolding races happen
is_race_free [] w = true
is_race_free (e ∷ es) w =
    not (races e.self e.action w) && is_race_free es (happen e.self e.action w)

-- What an access reports if it races.
unfoldable pub report_of : RaceSet → ℕ → Action → Reports → Reports
report_of set self (read addr p) r = report_race_on_read set p.line_no p.obj_name p.file_name self r
report_of set self (write addr p) r =
    report_race_on_write set p.line_no p.obj_name p.file_name self r
report_of set self _ r = r
