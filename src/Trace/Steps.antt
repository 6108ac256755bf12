-- ===== src/Trace/Steps.antt =====
-- One event: the callback does what the world says, and their knowledge stays the same.
use embed_sanitizer.Common.{
  ℕ, ◌+◌, ◌-◌, ◌≤◌, ◌<◌, ◌≡◌, ◌≢◌, ◌∙◌, refl, ap, Bool, false, Bool-cases, inl, inr, some, lookup,
  arith, ◌==◌, Run, Returns,
}
use embed_sanitizer.Clock.{u32}
use embed_sanitizer.State.{ThreadState, State}
use embed_sanitizer.FastTrack.Ticks.{HasRoom}
use embed_sanitizer.Report.{RaceSet}
use embed_sanitizer.Interface.{
  Runtime, tsan_thread_create, tsan_thread_join, tsan_thread_lock, tsan_thread_unlock, on_state,
  acquire_state, release_state, fork_state, join_state,
}
use embed_sanitizer.Interface.Sync.{
  acquire_state-Synced, release_state-Synced, fork_state-Synced, join_state-Synced,
}
use embed_sanitizer.Interface.Synced.{Synced}
use embed_sanitizer.Trace.{lock, unlock, create, join, act, World, at_key, either, happen}
use embed_sanitizer.Trace.Knowledge.{thread_knows, lock_knows}
use embed_sanitizer.Trace.Moves.{
  Moves, acquire_state-Moves, release_state-Moves, fork_state-Moves, join_state-Moves,
}
use embed_sanitizer.Trace.Linked.{Linked, moved-Linked}
use embed_sanitizer.Trace.Paced.{
  Registered, HasTime, Paced, Synced-Paced, at_key_same, at_key_none, both, recounted,
}

pub record Stepped (r r' : Runtime) (w : World) : Type 0 where
  pub stamp : ℕ → ℕ
  pub linked : Linked r'.state w stamp
  pub paced : Paced r.state r'.state
  pub reports : r'.reports ≡ r.reports

module _ (set : RaceSet) (r : Runtime) (w : World) (stamp : ℕ → ℕ)
    (li : Linked r.state w stamp) where
  -- A callback on the state alone.
  lift_state :
      (m : Run State) (w' : World)
      → Returns m (λ s'. Linked s' w' stamp × Paced r.state s')
      → Returns (on_state m r) (λ r'. Stepped r r' w')
  unfolding on_state
  lift_state m w' (s', run, (l, p)) = (
    record r { state = s' },
    rw run refl,
    record { stamp = stamp; linked = l; paced = p; reports = refl },
  )

  -- The four kinds of knowledge that a step has to match.
  gained :
      (self : ℕ) (f g : ℕ → Bool) (k a : ℕ)
      → a < w.next
      → ((a : ℕ) → a < w.next → f a ≡ g (stamp a))
      → at_key self (either (w.known self) f) w.known k a
        ≡ at_key self
            (either (thread_knows r.state.threads self) g)
            (thread_knows r.state.threads)
            k
            (stamp a)
  gained self f g k a h same = elim (Bool-cases (self == k)) [
    | inl e ↦ rw (e, li.known self a h, same a h) refl
    | inr e ↦ rw (e, li.known k a h) refl
  ]

  gained_later :
      (self : ℕ) (f : ℕ → Bool) (k a : ℕ)
      → w.next ≤ a
      → f a ≡ false
      → at_key self (either (w.known self) f) w.known k a ≡ false
  gained_later self f k a h e = elim (Bool-cases (self == k)) [
    | inl q ↦ rw (q, li.unknown self a h, e) refl
    | inr q ↦ rw (q, li.unknown k a h) refl
  ]

  room_of :
      (k : ℕ) (t : ThreadState) → lookup k r.state.threads ≡ some t → HasTime r.state 1 → HasRoom t
  room_of k t f time = omega (arith, time k t f)

  -- A callback that moves knowledge, on a state whose count of running threads is as it was.
  moved-Stepped :
      (m : Run State) (known handed known' handed' : ℕ → ℕ → Bool) (running count : ℕ)
      → running ≡ count
      → Returns m (λ s'. Synced r.state (record s' { is_concurrent = r.state.is_concurrent }))
      → Returns m (λ s'. Moves r.state s' known handed count)
      → ((k a : ℕ) → a < w.next → known' k a ≡ known k (stamp a))
      → ((j a : ℕ) → a < w.next → handed' j a ≡ handed j (stamp a))
      → ((k a : ℕ) → w.next ≤ a → known' k a ≡ false)
      → ((j a : ℕ) → w.next ≤ a → handed' j a ≡ false)
      → Returns
          (on_state m r)
          λ r'. Stepped r r' (record w { known = known'; handed = handed'; running = running })
  moved-Stepped m known handed known' handed' running count e q p kn hd un uh =
      let (s', run, (y, mv)) = both m _ _ q p in
      let z : Synced r.state s' =
        recounted r.state (record s' { is_concurrent = r.state.is_concurrent }) s'.is_concurrent
          y in
      lift_state m _ (
        s',
        run,
        (
          moved-Linked r.state s' w stamp known handed known' handed' running li z.system z.vstates
              z.tracks
              (record {
                threads = mv.threads;
                locks = mv.locks;
                owned = mv.owned;
                running = e ∙ mv.running;
              })
              kn hd un uh,
          Synced-Paced r.state s' z,
        ),
      )

  pub lock-Stepped :
      (self addr : ℕ)
      → Registered r.state self
      → Returns (act set self (lock addr) r) (λ r'. Stepped r r' (happen self (lock addr) w))
  unfolding act happen tsan_thread_lock
  lock-Stepped self addr (t, f) =
      let s = r.state in
      let (s', run, y) = acquire_state-Synced addr self s t li.system f in
      moved-Stepped (acquire_state addr self s) _ _ _ _ w.running s.is_concurrent li.running
        (s', run, recounted s s' s.is_concurrent y) (acquire_state-Moves addr self s t li.system f)
        (λ k a h.
          gained self (w.handed addr) (lock_knows s.locks addr) k a h (λ a h. li.handed addr a h))
        li.handed (λ k a h. gained_later self (w.handed addr) k a h (li.unhanded addr a h))
        li.unhanded

  pub unlock-Stepped :
      (self addr : ℕ)
      → Registered r.state self
      → HasTime r.state 1
      → Returns (act set self (unlock addr) r) (λ r'. Stepped r r' (happen self (unlock addr) w))
  unfolding act happen tsan_thread_unlock
  unlock-Stepped self addr (t, f) time =
      let s = r.state in
      let room = room_of self t f time in
      let (s', run, y) = release_state-Synced addr self s t li.system f room in
      moved-Stepped (release_state addr self s) _ _ _ _ w.running s.is_concurrent li.running
        (s', run, recounted s s' s.is_concurrent y)
        (release_state-Moves addr self s t li.system f room) li.known
        (λ j a h.
          at_key_same addr (w.known self) (thread_knows s.threads self) w.handed
            (lock_knows s.locks) j a (stamp a) (li.known self a h) (li.handed j a h))
        li.unknown
        (λ j a h.
          at_key_none addr (w.known self) w.handed j a (li.unknown self a h) (li.unhanded j a h))

  pub create-Stepped :
      (self child : ℕ)
      → Registered r.state self
      → Registered r.state child
      → self ≢ child
      → HasTime r.state 1
      → Returns (act set self (create child) r) (λ r'. Stepped r r' (happen self (create child) w))
  unfolding act happen tsan_thread_create
  create-Stepped self child (t, f) (u, g) ne time =
      let s = r.state in
      let room = room_of self t f time in
      let (s', run, (c, y)) = fork_state-Synced child self s t u li.system f g ne room in
      moved-Stepped (fork_state child self s) _ _ _ _ _ _ (ap (λ z. u32 (z + 1)) li.running)
        (s', run, y) (fork_state-Moves child self s t u li.system f g ne room)
        (λ k a h.
          gained child (w.known self) (thread_knows s.threads self) k a h
            (λ a h. li.known self a h))
        li.handed (λ k a h. gained_later child (w.known self) k a h (li.unknown self a h))
        li.unhanded

  pub join-Stepped :
      (self child : ℕ)
      → Registered r.state self
      → Registered r.state child
      → self ≢ child
      → HasTime r.state 1
      → Returns (act set self (join child) r) (λ r'. Stepped r r' (happen self (join child) w))
  unfolding act happen tsan_thread_join
  join-Stepped self child (t, f) (u, g) ne time =
      let s = r.state in
      let room = room_of child u g time in
      let (s', run, (c, y)) = join_state-Synced child self s t u li.system f g ne room in
      moved-Stepped (join_state child self s) _ _ _ _ _ _ (ap (λ z. z - 1) li.running) (s', run, y)
        (join_state-Moves child self s t u li.system f g ne room)
        (λ k a h.
          gained self (w.known child) (thread_knows s.threads child) k a h
            (λ a h. li.known child a h))
        li.handed (λ k a h. gained_later self (w.known child) k a h (li.unknown child a h))
        li.unhanded
