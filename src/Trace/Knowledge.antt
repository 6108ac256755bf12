-- ===== src/Trace/Knowledge.antt =====
-- What the clocks of a state know, and how the synchronisation of etsan/fasttrack.h changes it.
use embed_sanitizer.Common.{
  ℕ, ◌≤◌, ◌<◌, ◌≡◌, ◌∙◌, refl, sym, Bool, false, ◌||◌, Bool-cases, inl, inr, none, some,
  Option-cases, List, [], lookup, insert, lookup-insert, arith, ◌==◌, if◌then◌else◌, eqb→eq,
}
use embed_sanitizer.Clock.{VectorClock, tid_of, shl24}
use embed_sanitizer.State.{ThreadState, State, get_lock_state}
use embed_sanitizer.Clock.Extend.{entry-new_vector_clock}
use embed_sanitizer.Clock.{new_vector_clock}
use embed_sanitizer.FastTrack.Ticks.{IsThread, Joined, Ticked, Same}
use embed_sanitizer.Detector.{knows}

-- A thread or a lock that the tables do not hold knows nothing.
unfoldable pub thread_knows : List (ℕ × ThreadState) → ℕ → ℕ → Bool
thread_knows m k e = elim (lookup k m) [ none ↦ false | some t ↦ knows t.c e ]

unfoldable pub lock_knows : List (ℕ × VectorClock) → ℕ → ℕ → Bool
lock_knows m j e = elim (lookup j m) [ none ↦ false | some l ↦ knows l e ]

pub thread_knows-found :
    (m : List (ℕ × ThreadState)) (k e : ℕ) (t : ThreadState)
    → lookup k m ≡ some t
    → thread_knows m k e ≡ knows t.c e
unfolding thread_knows
thread_knows-found m k e t h = rw (h, thread_knows) refl

pub thread_knows-insert :
    (m : List (ℕ × ThreadState)) (k j e : ℕ) (t : ThreadState)
    → thread_knows (insert k t m) j e ≡ (if k == j then knows t.c e else thread_knows m j e)
unfolding thread_knows
thread_knows-insert m k j e t = ground (arith, lookup-insert k j t m)

pub lock_knows-insert :
    (m : List (ℕ × VectorClock)) (k j e : ℕ) (l : VectorClock)
    → lock_knows (insert k l m) j e ≡ (if k == j then knows l e else lock_knows m j e)
unfolding lock_knows
lock_knows-insert m k j e l = ground (arith, lookup-insert k j l m)

-- The stamp of an access is no zero clock.
abbrev pub IsStamped : ℕ → Type 0
IsStamped e = shl24 (tid_of e) < e

same_lock :
    (lock j e : ℕ) (s : State) (l : VectorClock)
    → knows l e ≡ false
    → lock_knows s.locks lock e ≡ false
    → lock_knows (insert lock l s.locks) j e ≡ lock_knows s.locks j e
same_lock lock j e s l h k = elim (Bool-cases (lock == j)) [
  | inr other ↦ lock_knows-insert s.locks lock j e l ∙ rw other refl
  | inl same ↦
      lock_knows-insert s.locks lock j e l ∙ rw (same, h) (sym (rw (eqb→eq lock j same) at k))
]

-- A lock that is entered on first sight knows nothing.
pub get_lock_state-knows :
    (lock e : ℕ) (s : State)
    → IsStamped e
    → (knows (get_lock_state lock s).0 e ≡ lock_knows s.locks lock e)
      × ((j : ℕ) → lock_knows (get_lock_state lock s).1.locks j e ≡ lock_knows s.locks j e)
unfolding lock_knows
get_lock_state-knows lock e s h = elim (Option-cases (lookup lock s.locks)) [
  | inr (l, f) ↦
      let run : get_lock_state lock s ≡ (l, s) = unfold get_lock_state in rw (f, get_lock_state) in
      rw run (rw (f, lock_knows) refl, λ j. refl)
  | inl f ↦
      let l = new_vector_clock [] s.num_threads in
      let run : get_lock_state lock s ≡ (l, record s { locks = insert lock l s.locks }) =
        unfold get_lock_state in rw (f, get_lock_state) in
      let none_known : knows l e ≡ false =
        ground (arith, entry-new_vector_clock [] s.num_threads (tid_of e)) in
      let nothing : lock_knows s.locks lock e ≡ false = rw (f, lock_knows) refl in
      rw run (none_known ∙ sym nothing, λ j. same_lock lock j e s l none_known nothing)
]

pub Joined-knows :
    (t t' : ThreadState) (l : VectorClock) (e : ℕ)
    → Joined t l t'
    → knows t'.c e ≡ (knows t.c e || knows l e)
Joined-knows t t' l e j = ground (arith, j.reads (tid_of e))

pub Same-knows : (l l' : VectorClock) (e : ℕ) → Same l l' → knows l' e ≡ knows l e
Same-knows l l' e s = ground (arith, s.reads (tid_of e))

-- A thread that enters its next epoch gains nothing, since no access has the stamp of that epoch yet.
pub Ticked-knows :
    (t t' : ThreadState) (n e : ℕ)
    → IsThread t
    → Ticked t n t'
    → (tid_of e ≡ t.tid → e ≤ t.epoch)
    → knows t'.c e ≡ knows t.c e
Ticked-knows t t' n e v k owned = ground (arith, k.reads (tid_of e), v.own)
