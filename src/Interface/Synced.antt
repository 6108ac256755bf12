-- ===== src/Interface/Synced.antt =====
-- What a synchronisation callback keeps of a system, and the tables of threads and locks.
use embed_sanitizer.Common.{
  ℕ, ◌+◌, ◌≤◌, ◌≡◌, refl, inl, inr, some, Option-cases, [], lookup, insert, lookup-insert_self,
  arith, ok,
}
use embed_sanitizer.Clock.{VectorClock, new_vector_clock}
use embed_sanitizer.Clock.Extend.{entry-new_vector_clock, new_vector_clock-IsClock}
use embed_sanitizer.State.{ThreadState, VarState, State, get_state, get_lock_state}
use embed_sanitizer.FastTrack.Ticks.{tid-lt}
use embed_sanitizer.Detector.{IsSystem, Tracks, History}
use embed_sanitizer.Detector.Advance.{zero_clock}
use embed_sanitizer.Detector.Settle.{IsSystem-Settling, Settling-IsSystem, ReplacesLock}
use embed_sanitizer.Interface.Half.{Half, Half-refl, lock-Half, none_late}

-- Nothing is lost from `s` to `s'`.
pub record Synced (s s' : State) : Type 0 where
  pub system : IsSystem s'
  pub tracks : (x : VarState) (h : History) → Tracks s x h → Tracks s' x h
  pub vstates : s'.vstates ≡ s.vstates
  pub num : s'.num_threads ≡ s.num_threads
  pub counters : (s'.reads ≡ s.reads) × (s'.writes ≡ s.writes)
  pub known :
      (k : ℕ) (t : ThreadState)
      → lookup k s.threads ≡ some t
      → (t' : ThreadState) × (lookup k s'.threads ≡ some t')
  pub paced :
      (k : ℕ) (t' : ThreadState)
      → lookup k s'.threads ≡ some t'
      → (t : ThreadState) × (lookup k s.threads ≡ some t)
        × (t'.tid ≡ t.tid)
        × (t'.epoch ≤ t.epoch + 1)

pub get_state-found :
    (k : ℕ) (s : State) (t : ThreadState) → lookup k s.threads ≡ some t → get_state k s ≡ ok (t, s)
unfolding get_state
get_state-found k s t e = rw (e, get_state)

pub Half-Synced : {s s' : State} → Half none_late none_late 1 s s' → Synced s s'
Half-Synced p = record {
  system = Settling-IsSystem none_late (λ k. refl) p.settling;
  tracks = p.tracks;
  vstates = p.vstates;
  num = p.num;
  counters = (p.counters.0, p.counters.1);
  known = p.known;
  paced = λ k t e. let (t0, e0, i, l) = p.paced k t e in (t0, e0, i, omega arith);
}

-- A lock is entered on first sight with zero clocks.
pub record HasLock (lock : ℕ) (s : State) (l : VectorClock) (s' : State) : Type 0 where
  pub half : Half none_late none_late 0 s s'
  pub found : lookup lock s'.locks ≡ some l
  pub threads : s'.threads ≡ s.threads
  pub concurrent : s'.is_concurrent ≡ s.is_concurrent

pub get_lock_state-HasLock :
    (lock : ℕ) (s : State)
    → IsSystem s
    → HasLock lock s (get_lock_state lock s).0 (get_lock_state lock s).1
get_lock_state-HasLock lock s i =
    let st = IsSystem-Settling i in
    elim (Option-cases (lookup lock s.locks)) [
      | inr (l, e) ↦
          let run : get_lock_state lock s ≡ (l, s) =
            unfold get_lock_state in rw (e, get_lock_state) in
          rw run (record {
            half = Half-refl none_late s st;
            found = e;
            threads = refl;
            concurrent = refl;
          })
      | inl e ↦
          let l = new_vector_clock [] s.num_threads in
          let run : get_lock_state lock s ≡ (l, record s { locks = insert lock l s.locks }) =
            unfold get_lock_state in rw (e, get_lock_state) in
          let z = entry-new_vector_clock [] s.num_threads in
          let r : ReplacesLock none_late none_late s st lock l = record {
            valid = new_vector_clock-IsClock [] s.num_threads i.few;
            others = λ k. omega arith;
            ahead = λ k t f. omega (arith, z t.tid, i.started k t f, tid-lt (i.thread k t f));
            made = zero_clock z;
          } in
          rw run (record {
            half = lock-Half none_late none_late 0 s st (λ k. omega arith) lock l r;
            found = lookup-insert_self lock l s.locks;
            threads = refl;
            concurrent = refl;
          })
    ]

-- Taking a lock, by a registered thread of a well-formed system, does not fault: the system stays
-- well formed, every variable stands for the accesses that it stood for, the tables and counters
