-- ===== src/Statistics/Programs.antt =====
-- The count of races in the statistics of a whole program.
use embed_sanitizer.Common.{
  if◌then◌else◌, ◌==◌, ℕ, ◌+◌, ◌≡◌, ◌∙◌, refl, ap, Bool, true, false, Bool-cases, inl, inr,
  Option-cases, List, [], ◌∷◌, ◌++◌, lookup, insert, length, ◌==◌, Run, ok, fault, ◌>>=◌, IfOk,
  IfOk-bind, IfOk-next, put,
}
use embed_sanitizer.Clock.{u32, shl24}
use embed_sanitizer.State.{
  ThreadState, VarState, State, blank, register, update_clock, get_state, get_var_state,
  get_lock_state,
}
use embed_sanitizer.FastTrack.{
  ft_read, ft_write, ft_acquire, ft_release, ft_fork, ft_join, ft_alone,
}
use embed_sanitizer.Report.{codes, show_int, RaceSet, show_unsigned}
use embed_sanitizer.Interface.{
  Runtime, read_state, write_state, acquire_state, release_state, fork_state, join_state, on_state,
  tsan_read, tsan_write, tsan_thread_create, tsan_thread_join, tsan_thread_lock, tsan_thread_unlock,
}
use embed_sanitizer.Trace.{Action, read, write, lock, unlock, create, join, Event, act, run}
use embed_sanitizer.Statistics.{table_size, count_racy, line_of, print_variables}
use embed_sanitizer.Statistics.Calm.{Calm, ft_read-racy, ft_write-racy, lookup-Calm, insert-Calm}

-- The variables are as they were.
abbrev Same {ℓ} : {A : Type ℓ} → State → A × State → Type 0
Same s r = r.1.vstates ≡ s.vstates

register-Same : (k : ℕ) (s : State) → IfOk (register k s) (Same s)
unfolding register
register-Same k s =
    let n = length (insert k blank s.threads) in
    let e = u32 (shl24 n + 1) in
    let st : ThreadState = record { tid = n; c = []; epoch = e } in
    IfOk-next (Same s) (put (update_clock n st).c n e) _ (λ c. refl)

get_state-Same : (k : ℕ) (s : State) → IfOk (get_state k s) (Same s)
unfolding get_state
get_state-Same k s = elim (Option-cases (lookup k s.threads)) [
  | inl new ↦ rw (new, get_state) (register-Same k s)
  | inr (t, known) ↦ rw (known, get_state) refl
]

get_lock_state-Same : (k : ℕ) (s : State) → (get_lock_state k s).1.vstates ≡ s.vstates
unfolding get_lock_state
get_lock_state-Same k s = elim (Option-cases (lookup k s.locks)) [
  | inl new ↦ rw (new, get_lock_state) refl
  | inr (l, known) ↦ rw (known, get_lock_state) refl
]

-- The variable and the table are calm.
abbrev CalmVar : VarState × State → Type 0
CalmVar r = (r.0.racy ≡ false) × Calm r.1.vstates

get_var_state-Calm :
    (addr : ℕ) (is_write : Bool) (self : ℕ) (s : State)
    → Calm s.vstates
    → IfOk (get_var_state addr is_write self s) CalmVar
unfolding get_var_state
get_var_state-Calm addr is_write self s h = elim (Option-cases (lookup addr s.vstates)) [
  | inr (x, known) ↦ rw (known, get_var_state) (lookup-Calm addr x s.vstates h known, h)
  | inl new ↦
      rw (new, get_var_state)
        (IfOk-bind (Same s) CalmVar (get_state self s) _ (get_state-Same self s)
          λ (t, s') e. (refl, insert-Calm addr _ s'.vstates (ap count_racy e ∙ h) refl))
]

abbrev CalmState {ℓ} : {A : Type ℓ} → A × State → Type 0
CalmState r = Calm r.1.vstates

read_state-Calm :
    (addr self : ℕ) (s : State) → Calm s.vstates → IfOk (read_state addr self s) CalmState
unfolding read_state
read_state-Calm addr self s h =
    IfOk-bind CalmVar CalmState (get_var_state addr false self s) _
      (get_var_state-Calm addr false self s h)
      λ (x, s1) (calm, h1).
        IfOk-bind (Same s1) CalmState (get_state self s1) _ (get_state-Same self s1) λ (t, s2) e.
          IfOk-bind (λ a. a.var.racy ≡ x.racy) CalmState (ft_read s2.num_threads s2.reads x t) _
            (ft_read-racy s2.num_threads s2.reads x t)
            (λ a q. insert-Calm addr a.var s2.vstates (ap count_racy e ∙ h1) (q ∙ calm))

write_state-Calm :
    (addr self : ℕ) (s : State) → Calm s.vstates → IfOk (write_state true addr self s) CalmState
unfolding write_state
write_state-Calm addr self s h =
    IfOk-bind CalmVar CalmState (get_var_state addr true self s) _
      (get_var_state-Calm addr true self s h)
      λ (x, s1) (calm, h1).
        IfOk-bind (Same s1) CalmState (get_state self s1) _ (get_state-Same self s1) λ (t, s2) e.
          IfOk-bind (λ a. a.var.racy ≡ x.racy) CalmState (ft_write s2.writes x t) _
            (ft_write-racy s2.writes x t)
            (λ a q. insert-Calm addr a.var s2.vstates (ap count_racy e ∙ h1) (q ∙ calm))

-- The synchronisation callbacks touch no variable.
abbrev Untouched : State → State → Type 0
Untouched s s' = s'.vstates ≡ s.vstates

acquire_state-Untouched :
    (addr self : ℕ) (s : State) → IfOk (acquire_state addr self s) (Untouched s)
unfolding acquire_state
acquire_state-Untouched addr self s =
    IfOk-bind (Same s) (Untouched s) (get_state self s) _ (get_state-Same self s) λ (t, s1) e.
      IfOk-next (Untouched s) (ft_acquire t (get_lock_state addr s1).0) _
        (λ q. get_lock_state-Same addr s1 ∙ e)

release_state-Untouched :
    (addr self : ℕ) (s : State) → IfOk (release_state addr self s) (Untouched s)
unfolding release_state
release_state-Untouched addr self s =
    IfOk-bind (Same s) (Untouched s) (get_state self s) _ (get_state-Same self s) λ (t, s1) e.
      IfOk-next (Untouched s) (ft_release t (get_lock_state addr s1).0) _
        (λ q. get_lock_state-Same addr s1 ∙ e)

-- The three look-ups of a fork and a join.
three_looks :
    (child self : ℕ) (s : State) (f : ThreadState → ThreadState → State → Run State)
    → ((t u : ThreadState) (s' : State) → IfOk (f t u s') (Untouched s'))
    → IfOk
        (do
          (_, s1) ← get_state self s
          (u, s2) ← get_state child s1
          (t, s3) ← get_state self s2
          f t u s3)
        (Untouched s)
three_looks child self s f h =
    IfOk-bind (Same s) (Untouched s) (get_state self s) _ (get_state-Same self s) λ (t0, s1) e1.
      IfOk-bind (Same s1) (Untouched s) (get_state child s1) _ (get_state-Same child s1)
        λ (u, s2) e2.
          IfOk-bind (Same s2) (Untouched s) (get_state self s2) _ (get_state-Same self s2)
            λ (t, s3) e3. back (f t u s3) s3 (e3 ∙ e2 ∙ e1) (h t u s3)
  where
    back :
        (m : Run State) (s3 : State)
        → s3.vstates ≡ s.vstates
        → IfOk m (Untouched s3)
        → IfOk m (Untouched s)
    back (fault e) s3 q p = tt
    back (ok a) s3 q p = p ∙ q

fork_state-Untouched : (child self : ℕ) (s : State) → IfOk (fork_state child self s) (Untouched s)
unfolding fork_state
fork_state-Untouched child self s = three_looks child self s _ (λ t u s'.
    IfOk-next (Untouched s') (if self == child then ft_alone t else ft_fork t u) _ (λ q. refl))

join_state-Untouched : (child self : ℕ) (s : State) → IfOk (join_state child self s) (Untouched s)
unfolding join_state
join_state-Untouched child self s = three_looks child self s _ (λ t u s'.
    IfOk-next (Untouched s') (if self == child then ft_alone t else ft_join t u) _ (λ q. refl))

abbrev CalmRuntime : Runtime → Type 0
CalmRuntime r = Calm r.state.vstates

on_state-Calm :
    (m : Run State) (r : Runtime)
    → IfOk m (Untouched r.state)
    → CalmRuntime r
    → IfOk (on_state m r) CalmRuntime
unfolding on_state
on_state-Calm m r u h = IfOk-bind (Untouched r.state) CalmRuntime m _ u (λ s e. ap count_racy e ∙ h)

act-Calm :
    (set : RaceSet) (self : ℕ) (a : Action) (r : Runtime)
    → CalmRuntime r
    → IfOk (act set self a r) CalmRuntime
unfolding act tsan_read tsan_write tsan_thread_create tsan_thread_join tsan_thread_lock
    tsan_thread_unlock
act-Calm set self (read addr p) r h = elim (Bool-cases (r.state.is_concurrent == 0)) [
  | inl alone ↦ rw alone h
  | inr several ↦ rw several (
      IfOk-bind CalmState CalmRuntime (read_state addr self r.state) _
        (read_state-Calm addr self r.state h) (λ a q. q))
]
act-Calm set self (write addr p) r h = elim (Bool-cases (r.state.is_concurrent == 0)) [
  | inl alone ↦ rw alone h
  | inr several ↦ rw several (
      IfOk-bind CalmState CalmRuntime (write_state true addr self r.state) _
        (write_state-Calm addr self r.state h) (λ a q. q))
]
act-Calm set self (lock addr) r h = on_state-Calm _ r (acquire_state-Untouched addr self r.state) h
act-Calm set self (unlock addr) r h =
    on_state-Calm _ r (release_state-Untouched addr self r.state) h
act-Calm set self (create child) r h = on_state-Calm _ r (fork_state-Untouched child self r.state) h
act-Calm set self (join child) r h = on_state-Calm _ r (join_state-Untouched child self r.state) h

run-Calm :
    (set : RaceSet) (es : List Event) (r : Runtime)
    → CalmRuntime r
    → IfOk (run set es r) CalmRuntime
unfolding run
run-Calm set [] r h = h
run-Calm set (e ∷ es) r h =
    IfOk-bind CalmRuntime CalmRuntime (act set e.self e.action r) (run set es)
      (act-Calm set e.self e.action r h) (λ r' q. run-Calm set es r' q)

-- Whatever sequence of reads, writes, lockings, unlockings, starts and waits a program makes, and
-- whatever is reported of it, if no variable is marked as racy at the start and there is no fault,
-- the statistics on variables end in `Races: 0`.
pub run-print_variables :
    (set : RaceSet) (es : List Event) (r r' : Runtime)
    → count_racy r.state.vstates ≡ 0
    → run set es r ≡ ok r'
    → print_variables r'.state
      ≡ line_of (codes "Addresses: ") (show_unsigned (table_size r'.state.vstates))
        ++ line_of (codes "Reads: ") (show_unsigned r'.state.reads)
        ++ line_of (codes "Writes: ") (show_unsigned r'.state.writes)
        ++ codes "Races: 0\n"
unfolding print_variables show_int show_unsigned
run-print_variables set es r r' h go =
    let calm : count_racy r'.state.vstates ≡ 0 = rw go at (run-Calm set es r h) in rw calm refl
