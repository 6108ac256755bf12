-- ===== src/State.antt =====
-- The detector's global state: the classes and tables of etsan/defs.h, with the functions that
-- look a thread, a variable or a lock up and enter it on first sight.
pub mod Register
use embed_sanitizer.Common.{
  ℕ, zero, suc, ◌+◌, ◌-◌, ◌^◌, Bool, true, false, Option, none, some, List, [], ◌∷◌, ◌++◌, map, Run,
  ok, overflow, failed_assert, ◌>>=◌, guard, length, at, put, lookup, insert, not, ◌==◌,
  if◌then◌else◌,
}
use embed_sanitizer.Clock.{VectorClock, u32, shl24, new_vector_clock}

-- `epoch` is meant to be `c[tid]`.
pub record ThreadState : Type 0 where
  pub tid : ℕ
  pub c : VectorClock
  pub epoch : ℕ

unfoldable pub update_epoch : ThreadState → Run ThreadState
update_epoch t = do e ← at t.c t.tid; ok (record t { epoch = e })

-- `epoch++` on an `int`: the largest value has no successor.
unfoldable pub increment : ThreadState → Run ThreadState
increment t = guard (not (t.epoch == 2 ^ 31 - 1)) overflow do
  let e = u32 (t.epoch + 1)
  c' ← put t.c t.tid e
  x ← at c' t.tid
  guard (x == e) failed_assert (ok (record t { epoch = e; c = c' }))

-- `rvc` is used if and only if `r` is `read_shared`.
pub record VarState : Type 0 where
  pub w : ℕ
  pub r : ℕ
  pub rvc : VectorClock
  pub racy : Bool

-- The globals `TS`, `VS`, `LS`, `NumThreads` and `isConcurrent`. Each table is keyed by a thread's
-- pthread id or by an address. The mutexes are left out: an operation runs whole.
pub record State : Type 0 where
  pub threads : List (ℕ × ThreadState)
  pub vstates : List (ℕ × VarState)
  pub reads : ℕ
  pub writes : ℕ
  pub locks : List (ℕ × VectorClock)
  pub num_threads : ℕ
  pub is_concurrent : ℕ

-- The inner loop of `UpdateThreadClocks`: entries from `idx` on, for the rounds that are left.
unfoldable pub push_clocks : ℕ → ℕ → ℕ → VectorClock → VectorClock
push_clocks zero idx tid c = c
push_clocks (suc n) idx tid c =
    push_clocks n (suc idx) tid (c ++ (if tid == idx then u32 (shl24 idx + 1) else shl24 idx) ∷ [])

unfoldable pub update_clock : ℕ → ThreadState → ThreadState
unfolding push_clocks
update_clock n t = record t { c = push_clocks (n - length t.c) (length t.c) t.tid t.c }

unfoldable pub update_thread_clocks : List (ℕ × ThreadState) → List (ℕ × ThreadState)
unfolding update_clock
update_thread_clocks m = map (λ e. (e.0, update_clock (length m) e.1)) m

-- `ThreadState()`
abbrev pub blank : ThreadState
blank = record { tid = 0; c = []; epoch = 0 }

-- The branch of `getState` for an id that is not in the table. Every thread's clock is extended on
-- its own, so the new thread's own one, `st`, is followed apart from the table.
unfoldable pub register : ℕ → State → Run (ThreadState × State)
unfolding update_thread_clocks insert
register id s = do
  let n = length (insert id blank s.threads)
  let st : ThreadState = record { tid = n; c = []; epoch = u32 (shl24 n + 1) }
  let m = update_thread_clocks (insert id st s.threads)
  c' ← put (update_clock n st).c n st.epoch
  let st' = record st { c = c' }
  ok (st', record s { threads = insert id st' m; num_threads = length m + 1 })

unfoldable pub get_state : ℕ → State → Run (ThreadState × State)
unfolding register lookup
get_state id s = elim (lookup id s.threads) [ some t ↦ ok (t, s) | none ↦ register id s ]

-- `getVarState`; `self` is the id of the running thread.
unfoldable pub get_var_state : ℕ → Bool → ℕ → State → Run (VarState × State)
unfolding get_state
get_var_state addr is_write self s = elim (lookup addr s.vstates) [
  | some x ↦ ok (x, s)
  | none ↦ do
    (t, s') ← get_state self s
    let x : VarState = record {
      w = if is_write then t.epoch else shl24 t.tid;
      r = if is_write then shl24 t.tid else t.epoch;
      rvc = [];
      racy = false;
    }
    ok (x, record s' { vstates = insert addr x s'.vstates })
]

unfoldable pub get_lock_state : ℕ → State → VectorClock × State
unfolding lookup insert
get_lock_state lock s = elim (lookup lock s.locks) [
  | some l ↦ (l, s)
  | none ↦
      let l = new_vector_clock [] s.num_threads in (l, record s { locks = insert lock l s.locks })
]
