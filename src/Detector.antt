-- ===== src/Detector.antt =====
-- What the algorithm of etsan/fasttrack.h is to compute, and the invariant by which it does.
-- The reference keeps every access to a variable, where the code keeps one or two epochs.
pub mod Check
pub mod Own
pub mod Exclusive
pub mod Shared
pub mod Read
pub mod Kept
pub mod Write
pub mod Advance
pub mod Settle
pub mod First
pub mod Bounded
use embed_sanitizer.Common.{
  ℕ, ◌*◌, ◌^◌, ◌≤◌, ◌<◌, ◌≡◌, ◌≢◌, ◌⊎◌, Bool, true, false, not, ◌&&◌, some, List, [], ◌∷◌, length,
  lookup, leb,
}
use embed_sanitizer.Clock.{VectorClock, tid_of, shl24, read_shared}
use embed_sanitizer.Clock.Entry.{entry, IsEpoch, IsClock, max_tid}
use embed_sanitizer.State.{ThreadState, VarState, State}
use embed_sanitizer.FastTrack.Ticks.{IsThread}

-- The epochs of all the accesses to one variable.
pub record History : Type 0 where
  pub reads : List ℕ
  pub writes : List ℕ

-- The access with epoch `a` happened before whatever the clock `c` stands for.
abbrev pub knows : VectorClock → ℕ → Bool
knows c a = leb a (entry c (tid_of a))

abbrev pub Knows : VectorClock → ℕ → Type 0
Knows c a = a ≤ entry c (tid_of a)

unfoldable pub all_known : VectorClock → List ℕ → Bool
all_known c [] = true
all_known c (a ∷ as') = knows c a && all_known c as'

-- A read races if some earlier write is not known, a write if some earlier access is not.
unfoldable pub read_races : VectorClock → History → Bool
read_races c h = not (all_known c h.writes)

unfoldable pub write_races : VectorClock → History → Bool
write_races c h = not (all_known c h.writes && all_known c h.reads)

unfoldable pub add_read : ℕ → History → History
add_read e h = record h { reads = e ∷ h.reads }

unfoldable pub add_write : ℕ → History → History
add_write e h = record h { writes = e ∷ h.writes }

abbrev pub Each {ℓ} : (ℕ → Type ℓ) → List ℕ → Type ℓ
Each P [] = Unit
Each P (a ∷ as') = P a × Each P as'

-- The clocks that events can spread: those of the threads and of the locks.
pub data View (s : State) (v : VectorClock) : Type 0 where
  of_thread : (k : ℕ) (t : ThreadState) → lookup k s.threads ≡ some t → v ≡ t.c → View s v
  of_lock : (k : ℕ) → lookup k s.locks ≡ some v → View s v

-- The threads and the locks of a running program: a thread alone is in its epoch, and every clock
-- has an entry for each thread.
pub record IsSystem (s : State) : Type 0 where
  pub few : s.num_threads ≤ max_tid
  pub thread : (k : ℕ) (t : ThreadState) → lookup k s.threads ≡ some t → IsThread t
  pub wide :
      (k : ℕ) (t : ThreadState)
      → lookup k s.threads ≡ some t
      → (t.tid < s.num_threads) × (s.num_threads ≤ length t.c)
  pub started : (k : ℕ) (t : ThreadState) → lookup k s.threads ≡ some t → t.tid * 2 ^ 24 < t.epoch
  pub lock : (k : ℕ) (l : VectorClock) → lookup k s.locks ≡ some l → IsClock l
  pub unique :
      (k j : ℕ) (t u : ThreadState)
      → lookup k s.threads ≡ some t
      → lookup j s.threads ≡ some u
      → t.tid ≡ u.tid
      → k ≡ j
  pub behind :
      (k j : ℕ) (t u : ThreadState)
      → lookup k s.threads ≡ some t
      → lookup j s.threads ≡ some u
      → k ≢ j
      → entry u.c t.tid < t.epoch
  pub behind_lock :
      (k j : ℕ) (t : ThreadState) (l : VectorClock)
      → lookup k s.threads ≡ some t
      → lookup j s.locks ≡ some l
      → entry l t.tid < t.epoch

-- The epoch `b` is not a zero clock, and whoever knows it knows `a`.
abbrev pub Implies : State → ℕ → ℕ → Type 0
Implies s b a = (shl24 (tid_of b) < b) × ((v : VectorClock) → View s v → Knows v b → Knows v a)

-- The epochs that the variable keeps of its reads.
pub data Recorded (x : VarState) (b : ℕ) : Type 0 where
  shared : (u : ℕ) → u < length x.rvc → x.r ≡ read_shared → b ≡ entry x.rvc u → Recorded x b
  exclusive : x.r ≢ read_shared → b ≡ x.r → Recorded x b

pub data Covered (s : State) (x : VarState) (a : ℕ) : Type 0 where
  by_write : Implies s x.w a → Covered s x a
  by_read : (b : ℕ) → Recorded x b → Implies s b a → Covered s x a

-- An epoch of a thread that exists is not a later one than the thread's own.
abbrev pub Owned : State → ℕ → Type 0
Owned s b = (k : ℕ) (t : ThreadState) → lookup k s.threads ≡ some t → tid_of b ≡ t.tid → b ≤ t.epoch

-- A stamp of one of the `n` threads.
abbrev pub IsStamp : ℕ → ℕ → Type 0
IsStamp n a = (a < max_tid * 2 ^ 24) × (tid_of a < n)

-- The variable `x` stands for the accesses `h`, of which none raced.
pub record Tracks (s : State) (x : VarState) (h : History) : Type 0 where
  pub calm : x.racy ≡ false
  pub w_stamp : IsStamp s.num_threads x.w
  pub r_stamp : x.r ≢ read_shared → IsStamp s.num_threads x.r
  pub rvc_epochs : (u : ℕ) → u < max_tid → IsEpoch u (entry x.rvc u)
  pub rvc_size : (length x.rvc ≡ 0) ⊎ (length x.rvc ≡ s.num_threads)
  pub rvc_shared : x.r ≡ read_shared → length x.rvc ≡ s.num_threads
  pub w_owned : Owned s x.w
  pub r_owned : x.r ≢ read_shared → Owned s x.r
  pub rvc_owned : (u : ℕ) → u < max_tid → Owned s (entry x.rvc u)
  pub w_upper : Each (Implies s x.w) h.writes
  pub r_upper : Each (Covered s x) h.reads
  pub w_lower : (v : VectorClock) → IsClock v → Each (Knows v) h.writes → Knows v x.w
  pub r_lower :
      (v : VectorClock) → IsClock v → Each (Knows v) h.reads → x.r ≢ read_shared → Knows v x.r
  pub rvc_lower :
      (v : VectorClock)
      → IsClock v
      → Each (Knows v) h.reads
      → (u : ℕ) → u < max_tid
      → entry x.rvc u ≤ entry v u
  pub same_read :
      (k : ℕ) (t : ThreadState)
      → lookup k s.threads ≡ some t
      → x.r ≡ t.epoch
      → Each (Knows t.c) h.writes
  pub same_write :
      (k : ℕ) (t : ThreadState)
      → lookup k s.threads ≡ some t
      → x.w ≡ t.epoch
      → Each (Knows t.c) h.writes × Each (Knows t.c) h.reads
