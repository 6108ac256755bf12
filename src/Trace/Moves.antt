-- ===== src/Trace/Moves.antt =====
-- The synchronisation callbacks move knowledge between threads and locks, and do nothing else to it.
use embed_sanitizer.Common.{
  ne→eqb, ℕ, ◌+◌, ◌-◌, ◌≤◌, ◌≡◌, ◌≢◌, ◌∙◌, refl, sym, ap, Bool, ◌||◌, Bool-cases, inl, inr, some,
  List, lookup, insert, lookup-insert_other, arith, ◌==◌, if◌then◌else◌, Returns,
}
use embed_sanitizer.Clock.{VectorClock, tid_of, u32}
use embed_sanitizer.State.{ThreadState, State, get_lock_state}
use embed_sanitizer.FastTrack.Sync.{
  ft_acquire-Joined, ft_release-Ticked, ft_fork-Ticked, ft_join-Ticked,
}
use embed_sanitizer.FastTrack.Ticks.{IsThread, HasRoom, Joined, Ticked}
use embed_sanitizer.Detector.{IsSystem, knows, Owned}
use embed_sanitizer.Interface.{fork_state, join_state, acquire_state, release_state}
use embed_sanitizer.Interface.Synced.{get_state-found, get_lock_state-HasLock}
use embed_sanitizer.Trace.{either, at_key}
use embed_sanitizer.Trace.Knowledge.{
  thread_knows, lock_knows, thread_knows-found, lock_knows-insert, IsStamped, get_lock_state-knows,
  Joined-knows, Same-knows, Ticked-knows,
}
use embed_sanitizer.Trace.Gain.{insert-OwnedIn, gain, no_gain, same_lock}

-- In `s'`, the threads know of the stamps so far what `known` says, the locks what `handed` says,
-- and `count` threads are counted.
pub record Moves (s s' : State) (known handed : ℕ → ℕ → Bool) (count : ℕ) : Type 0 where
  pub threads : (k e : ℕ) → IsStamped e → Owned s e → thread_knows s'.threads k e ≡ known k e
  pub locks : (j e : ℕ) → IsStamped e → Owned s e → lock_knows s'.locks j e ≡ handed j e
  pub owned : (e : ℕ) → Owned s e → Owned s' e
  pub running : count ≡ s'.is_concurrent

module _ (lock self : ℕ) (s : State) (t : ThreadState) (i : IsSystem s)
    (f : lookup self s.threads ≡ some t) where
  pub acquire_state-Moves : Returns (acquire_state lock self s) λ s'.
      Moves s s'
        (at_key self
          (either (thread_knows s.threads self) (lock_knows s.locks lock))
          (thread_knows s.threads))
        (lock_knows s.locks)
        s.is_concurrent
  unfolding acquire_state
  acquire_state-Moves =
      let (l, s2) = get_lock_state lock s in
      let hl = get_lock_state-HasLock lock s i in
      let st = hl.half.settling in
      let f2 : lookup self s2.threads ≡ some t = rw hl.threads f in
      let ((t', l'), run, (jn, sm)) =
        ft_acquire-Joined t l (st.thread self t f2) (st.lock lock l hl.found)
          (omega (arith, st.behind_lock self lock t l f2 hl.found)) in
      (
        record s2 { threads = insert self t' s2.threads; locks = insert lock l' s2.locks },
        rw (get_state-found self s t f, run) refl,
        record {
          threads = λ k e st own. rw hl.threads (
              gain s.threads self k e t t' (lock_knows s.locks lock) f (
                Joined-knows t t' l e jn
                ∙ ap (λ z. knows t.c e || z) (get_lock_state-knows lock e s st).0));
          locks = λ j e st own.
              let look = get_lock_state-knows lock e s st in
              same_lock s2.locks lock j e l' (Same-knows l l' e sm ∙ look.0 ∙ sym (look.1 lock))
              ∙ look.1 j;
          running = sym hl.concurrent;
          owned = λ e own.
              rw hl.threads
                (insert-OwnedIn s.threads self t t' e f jn.tid (omega (arith, jn.epoch)) own);
        },
      )

  handed_over :
      (j e : ℕ) (u : ThreadState) (l : VectorClock) (m : List (ℕ × VectorClock))
      → lookup self s.threads ≡ some u
      → knows l e ≡ knows u.c e
      → lock_knows m j e ≡ lock_knows s.locks j e
      → (if lock == j then knows l e else lock_knows m j e)
        ≡ at_key lock (thread_knows s.threads self) (lock_knows s.locks) j e
  handed_over j e u l m g h k = elim (Bool-cases (lock == j)) [
    | inl same ↦ rw (same, h) (sym (thread_knows-found s.threads self e u g))
    | inr other ↦ rw (other, k) refl
  ]

  pub release_state-Moves :
      HasRoom t
      → Returns (release_state lock self s) λ s'.
        Moves s s'
          (thread_knows s.threads)
          (at_key lock (thread_knows s.threads self) (lock_knows s.locks))
          s.is_concurrent
  unfolding release_state
  release_state-Moves room =
      let (l, s2) = get_lock_state lock s in
      let hl = get_lock_state-HasLock lock s i in
      let st = hl.half.settling in
      let f2 : lookup self s2.threads ≡ some t = rw hl.threads f in
      let v = i.thread self t f in
      let ((t', l'), run, (tk, sm)) = ft_release-Ticked t l v (st.lock lock l hl.found) room in
      (
        record s2 { threads = insert self t' s2.threads; locks = insert lock l' s2.locks },
        rw (get_state-found self s t f, run) refl,
        record {
          threads = λ k e st own.
              rw hl.threads
                (no_gain s.threads self k e t t' f (Ticked-knows t t' _ e v tk (own self t f)));
          locks = λ j e st own.
              let look = get_lock_state-knows lock e s st in
              lock_knows-insert s2.locks lock j e l'
              ∙ handed_over j e t l' s2.locks f (Same-knows t.c l' e sm) (look.1 j);
          running = sym hl.concurrent;
          owned = λ e own.
              rw hl.threads
                (insert-OwnedIn s.threads self t t' e f tk.tid (omega (arith, tk.epoch)) own);
        },
      )

module _ (child self : ℕ) (s : State) (t u : ThreadState) (i : IsSystem s)
    (f : lookup self s.threads ≡ some t) (g : lookup child s.threads ≡ some u)
    (ne : self ≢ child) where
  -- The giver's clock is not the one that changes first.
  taken :
      (giver taker k e n : ℕ) (v w v' w' : ThreadState)
      → giver ≢ taker
      → lookup giver s.threads ≡ some v
      → lookup taker s.threads ≡ some w
      → IsThread v
      → Joined w v.c w'
      → Ticked v n v'
      → (tid_of e ≡ v.tid → e ≤ v.epoch)
      → thread_knows (insert giver v' (insert taker w' s.threads)) k e
        ≡ at_key taker
            (either (thread_knows s.threads taker) (thread_knows s.threads giver))
            (thread_knows s.threads)
            k
            e
  taken giver taker k e n v w v' w' other a b valid jn tk own =
      let a' : lookup giver (insert taker w' s.threads) ≡ some v =
        lookup-insert_other taker giver w' s.threads (λ z. other (sym z)) ∙ a in
      no_gain (insert taker w' s.threads) giver k e v v' a' (Ticked-knows v v' n e valid tk own)
      ∙ gain s.threads taker k e w w' (thread_knows s.threads giver) b (
          Joined-knows w w' v.c e jn
          ∙ ap (λ z. knows w.c e || z) (sym (thread_knows-found s.threads giver e v a)))

  pub fork_state-Moves :
      HasRoom t
      → Returns (fork_state child self s) λ s'.
        Moves s s'
          (at_key child
            (either (thread_knows s.threads child) (thread_knows s.threads self))
            (thread_knows s.threads))
          (lock_knows s.locks)
          (u32 (s.is_concurrent + 1))
  unfolding fork_state
  fork_state-Moves room =
      let ((t', u'), run, (tk, jn)) =
        ft_fork-Ticked t u (i.thread self t f) (i.thread child u g) room
          (omega (arith, i.behind child self u t g f (λ z. ne (sym z)))) in
      (
        record s {
          threads = insert self t' (insert child u' s.threads);
          is_concurrent = u32 (s.is_concurrent + 1);
        },
        rw
            (
              get_state-found self s t f,
              get_state-found child s u g,
              get_state-found self s t f,
              ne→eqb self child ne,
              run,
            )
            refl,
        record {
          threads = λ k e st own.
              taken self child k e _ t u t' u' ne f g (i.thread self t f) jn tk (own self t f);
          locks = λ j e st own. refl;
          running = refl;
          owned = λ e own.
              insert-OwnedIn (insert child u' s.threads) self t t' e
                (lookup-insert_other child self u' s.threads (λ z. ne (sym z)) ∙ f) tk.tid
                (omega (arith, tk.epoch))
                (insert-OwnedIn s.threads child u u' e g jn.tid (omega (arith, jn.epoch)) own);
        },
      )

  pub join_state-Moves :
      HasRoom u
      → Returns (join_state child self s) λ s'.
        Moves s s'
          (at_key self
            (either (thread_knows s.threads self) (thread_knows s.threads child))
            (thread_knows s.threads))
          (lock_knows s.locks)
          (s.is_concurrent - 1)
  unfolding join_state
  join_state-Moves room =
      let ((t', u'), run, (jn, tk)) =
        ft_join-Ticked t u (i.thread self t f) (i.thread child u g) room
          (omega (arith, i.behind self child t u f g ne)) in
      (
        record s {
          threads = insert child u' (insert self t' s.threads);
          is_concurrent = if s.is_concurrent == 0 then 0 else s.is_concurrent - 1;
        },
        rw
            (
              get_state-found self s t f,
              get_state-found child s u g,
              get_state-found self s t f,
              ne→eqb self child ne,
              run,
            )
            refl,
        record {
          threads = λ k e st own.
              taken child self k e _ u t u' t' (λ z. ne (sym z)) g f (i.thread child u g) jn tk
                (own child u g);
          locks = λ j e st own. refl;
          running = ground arith;
          owned = λ e own.
              insert-OwnedIn (insert self t' s.threads) child u u' e
                (lookup-insert_other self child t' s.threads ne ∙ g) tk.tid
                (omega (arith, tk.epoch))
                (insert-OwnedIn s.threads self t t' e f jn.tid (omega (arith, jn.epoch)) own);
        },
      )
