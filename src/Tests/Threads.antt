-- ===== src/Tests/Threads.antt =====
-- A system of two registered threads.
use embed_sanitizer.Common.{
  ap, ℕ, ◌+◌, ◌*◌, ◌^◌, ◌<◌, ◌≡◌, ◌⊎◌, ◌∙◌, refl, sym, false, inl, inr, some, none, [], ◌∷◌, lookup,
  length, set, length-set, arith, ◌==◌,
}
use embed_sanitizer.Clock.{VectorClock, shl24, new_vector_clock}
use embed_sanitizer.Clock.Entry.{
  entry, IsClock, IsEpoch, entry-set_elim, entry-set_self, entry-set_other,
}
use embed_sanitizer.Clock.Extend.{
  length-new_vector_clock, entry-new_vector_clock, new_vector_clock-IsClock,
}
use embed_sanitizer.State.{ThreadState, State}
use embed_sanitizer.FastTrack.Ticks.{IsThread}
use embed_sanitizer.Detector.{IsSystem}
use embed_sanitizer.Interface.Memory.{no_accesses, Remembers}

abbrev pub own_clock : ℕ → VectorClock
own_clock tid = set (new_vector_clock [] 3) tid (tid * 2 ^ 24 + 1)

abbrev pub new_thread : ℕ → ThreadState
new_thread tid = record { tid = tid; c = own_clock tid; epoch = tid * 2 ^ 24 + 1 }

size : (tid : ℕ) → length (own_clock tid) ≡ 3
size tid = length-set (new_vector_clock [] 3) tid _ ∙ length-new_vector_clock [] 3

own_clock-IsClock : (tid : ℕ) → tid < 3 → IsClock (own_clock tid)
own_clock-IsClock tid h =
    let c = new_vector_clock-IsClock [] 3 (omega arith) in
    record {
      short = omega (arith, size tid);
      entries = λ i l.
          entry-set_elim (IsEpoch i) (new_vector_clock [] 3) tid (tid * 2 ^ 24 + 1) i
            (omega (arith, length-new_vector_clock [] 3)) (λ same. rw (sym same) (omega arith))
            (c.entries i l);
    }

pub new_thread-IsThread : (tid : ℕ) → tid < 3 → IsThread (new_thread tid)
new_thread-IsThread tid h = record {
  within = omega (arith, size tid);
  clocks = own_clock-IsClock tid h;
  own =
      entry-set_self (new_vector_clock [] 3) tid (tid * 2 ^ 24 + 1)
        (omega (arith, length-new_vector_clock [] 3));
}

abbrev pub two_threads : State
two_threads = record {
  threads = (10, new_thread 1) ∷ (20, new_thread 2) ∷ [];
  vstates = [];
  reads = 0;
  writes = 0;
  locks = [];
  num_threads = 3;
  is_concurrent = 1;
}

cases :
    (k : ℕ) (t : ThreadState)
    → lookup k two_threads.threads ≡ some t
    → ((k ≡ 10) × (new_thread 1 ≡ t)) ⊎ ((k ≡ 20) × (new_thread 2 ≡ t))
unfolding lookup
cases k t e = ground arith

-- Every thread is in its first epoch.
pub first_epoch :
    (k : ℕ) (t : ThreadState) → lookup k two_threads.threads ≡ some t → t.epoch ≡ t.tid * 2 ^ 24 + 1
first_epoch k t e = elim (cases k t e) [
  | inl (_, q) ↦ rw (sym q) refl
  | inr (_, q) ↦ rw (sym q) refl
]

-- Two threads of the table are the same one, or the two in either order.
data Both (k j : ℕ) (t u : ThreadState) : Type 0 where
  same_thread : k ≡ j → Both k j t u
  first_second : new_thread 1 ≡ t → new_thread 2 ≡ u → Both k j t u
  second_first : new_thread 2 ≡ t → new_thread 1 ≡ u → Both k j t u

both :
    (k j : ℕ) (t u : ThreadState)
    → lookup k two_threads.threads ≡ some t
    → lookup j two_threads.threads ≡ some u
    → Both k j t u
both k j t u e f = elim (cases k t e) [
  | inl (a, q) ↦ elim (cases j u f) [
    | inl (b, _) ↦ same_thread (a ∙ sym b)
    | inr (_, r) ↦ first_second q r
  ]
  | inr (a, q) ↦ elim (cases j u f) [
    | inl (_, r) ↦ second_first q r
    | inr (b, _) ↦ same_thread (a ∙ sym b)
  ]
]

abbrev number : ThreadState → ℕ
number t = t.tid

no_lock : (k : ℕ) (l : VectorClock) → lookup k two_threads.locks ≡ some l → ⊥
unfolding lookup
no_lock k l e = cc

pub other_entry : (tid j : ℕ) → tid < 3 → (tid == j) ≡ false → entry (own_clock tid) j ≡ shl24 j
other_entry tid j h ne =
    entry-set_other (new_vector_clock [] 3) tid (tid * 2 ^ 24 + 1) j
      (omega (arith, length-new_vector_clock [] 3)) ne
    ∙ entry-new_vector_clock [] 3 j

pub two_threads-IsSystem : IsSystem two_threads
two_threads-IsSystem = record {
  few = omega arith;
  thread = λ k t e. elim (cases k t e) [
    | inl (_, q) ↦ rw (sym q) (new_thread-IsThread 1 (omega arith))
    | inr (_, q) ↦ rw (sym q) (new_thread-IsThread 2 (omega arith))
  ];
  wide = λ k t e. elim (cases k t e) [
    | inl (_, q) ↦ rw (sym q) (omega arith, omega (arith, size 1))
    | inr (_, q) ↦ rw (sym q) (omega arith, omega (arith, size 2))
  ];
  started = λ k t e. elim (cases k t e) [
    | inl (_, q) ↦ rw (sym q) (omega arith)
    | inr (_, q) ↦ rw (sym q) (omega arith)
  ];
  lock = λ k l e. absurd (no_lock k l e);
  unique = λ k j t u e f same. elim (both k j t u e f) [
    | same_thread q ↦ q
    | first_second q r ↦ absurd (omega (arith, ap number q, ap number r))
    | second_first q r ↦ absurd (omega (arith, ap number q, ap number r))
  ];
  behind = λ k j t u e f ne. elim (both k j t u e f) [
    | same_thread q ↦ absurd (ne q)
    | first_second q r ↦ rw (sym q, sym r) (omega (arith, other_entry 2 1 (omega arith) refl))
    | second_first q r ↦ rw (sym q, sym r) (omega (arith, other_entry 1 2 (omega arith) refl))
  ];
  behind_lock = λ k j t l e f. absurd (no_lock j l f);
}

pub two_threads-Remembers : (addr : ℕ) → Remembers two_threads addr no_accesses
unfolding lookup
two_threads-Remembers addr = record { fresh = λ _. refl; kept = λ x e. cc }

pub first_found : lookup 10 two_threads.threads ≡ some (new_thread 1)
unfolding lookup
first_found = refl

pub second_found : lookup 20 two_threads.threads ≡ some (new_thread 2)
unfolding lookup
second_found = refl

pub third_missing : lookup 30 two_threads.threads ≡ none
unfolding lookup
third_missing = refl
