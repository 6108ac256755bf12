-- ===== src/Interface/Sync.antt =====
-- The synchronisation callbacks on a running system: they do not fault, the system stays well
-- formed, and every variable still stands for the accesses that it stood for.
use embed_sanitizer.Common.{
  ne→eqb, ℕ, ◌+◌, ◌-◌, ◌≤◌, ◌≡◌, ◌≢◌, ◌∙◌, refl, sym, some, lookup, insert, lookup-insert_other,
  arith, length, Returns, ◌==◌, if◌then◌else◌,
}
use embed_sanitizer.Clock.{u32}
use embed_sanitizer.State.{ThreadState, State, get_lock_state}
use embed_sanitizer.FastTrack.Sync.{
  ft_acquire-Joined, ft_release-Ticked, ft_fork-Ticked, ft_join-Ticked,
}
use embed_sanitizer.FastTrack.Ticks.{HasRoom, Joined, Ticked}
use embed_sanitizer.Detector.{of_thread, of_lock, IsSystem}
use embed_sanitizer.Detector.Advance.{copy, join}
use embed_sanitizer.Detector.Settle.{IsSystem-Settling, Replaces, ReplacesLock}
use embed_sanitizer.Interface.{fork_state, join_state, acquire_state, release_state}
use embed_sanitizer.Interface.Half.{
  Half, Half-trans, thread-Half, lock-Half, Joined-Grown, only, none_late, tick-Replaces, handed,
}
use embed_sanitizer.Interface.Synced.{Half-Synced, Synced, get_lock_state-HasLock, get_state-found}

-- of variables stay, and each thread's epoch moves on by one at most.
pub acquire_state-Synced :
    (lock self : ℕ) (s : State) (t : ThreadState)
    → IsSystem s
    → lookup self s.threads ≡ some t
    → Returns (acquire_state lock self s) (Synced s)
unfolding acquire_state
acquire_state-Synced lock self s t i e =
    let (l, s2) = get_lock_state lock s in
    let hl = get_lock_state-HasLock lock s i in
    let st = hl.half.settling in
    let e2 : lookup self s2.threads ≡ some t = rw hl.threads e in
    let ((t', l'), run, (jn, sm)) =
      ft_acquire-Joined t l (st.thread self t e2) (st.lock lock l hl.found)
        (omega (arith, st.behind_lock self lock t l e2 hl.found)) in
    let r : Replaces none_late none_late s2 st self t t' = record {
      found = e2;
      grown = Joined-Grown jn;
      size = omega (arith, jn.size);
      others = λ k ne. omega arith;
      mine = omega (arith, jn.epoch);
      ahead = λ k u f ne. omega (
        arith,
        jn.reads u.tid,
        st.behind k self u t f e2 ne,
        st.behind_lock k lock u l f hl.found,
      );
      made = join t.c l (of_thread self t e2 refl) (of_lock lock hl.found) jn.reads;
    } in
    let s3 : State = record s2 { threads = insert self t' s2.threads } in
    let s4 : State = record s3 { locks = insert lock l' s2.locks } in
    let h3 =
      thread-Half none_late none_late 0 s2 st (λ k. omega arith) self t t' r
        (omega (arith, jn.epoch)) in
    let st3 = h3.settling in
    let q : ReplacesLock none_late none_late s3 st3 lock l' = record {
      valid = sm.valid;
      others = λ k. omega arith;
      ahead = λ k u f. omega (arith, sm.reads u.tid, st3.behind_lock k lock u l f hl.found);
      made = copy l (of_lock lock hl.found) sm.reads;
    } in
    let h4 = lock-Half none_late none_late 1 s3 st3 (λ k. omega arith) lock l' q in
    (
      s4,
      rw (get_state-found self s t e, run),
      Half-Synced (
          Half-trans none_late none_late none_late 0 1 s s2 s4 hl.half
            (Half-trans none_late none_late none_late 0 1 s2 s3 s4 h3 h4)),
    )

-- Giving a lock back, by a registered thread of a well-formed system whose epoch can still grow within
-- its 24 bits, does not fault: the system stays well formed, every variable stands for the accesses
-- that it stood for, the tables and counters of variables stay, and each thread's epoch moves on by
-- one at most.
pub release_state-Synced :
    (lock self : ℕ) (s : State) (t : ThreadState)
    → IsSystem s
    → lookup self s.threads ≡ some t
    → HasRoom t
    → Returns (release_state lock self s) (Synced s)
unfolding release_state
release_state-Synced lock self s t i e room =
    let (l, s2) = get_lock_state lock s in
    let hl = get_lock_state-HasLock lock s i in
    let st = hl.half.settling in
    let e2 : lookup self s2.threads ≡ some t = rw hl.threads e in
    let v = st.thread self t e2 in
    let ((t', l'), run, (tk, sm)) = ft_release-Ticked t l v (st.lock lock l hl.found) room in
    let q : ReplacesLock none_late (only self) s2 st lock l' = record {
      valid = sm.valid;
      others = λ k. omega arith;
      ahead = λ k u f. omega (arith, sm.reads u.tid, handed self s2 st t e2 k u f);
      made = copy t.c (of_thread self t e2 refl) sm.reads;
    } in
    let s3 : State = record s2 { locks = insert lock l' s2.locks } in
    let s4 : State = record s3 { threads = insert self t' s2.threads } in
    let h3 = lock-Half none_late (only self) 1 s2 st (λ k. ground arith) lock l' q in
    let r = tick-Replaces self s3 h3.settling t t' _ e2 (omega arith) tk in
    let h4 =
      thread-Half (only self) none_late 0 s3 h3.settling (λ k. omega arith) self t t' r
        (ground (arith, tk.epoch)) in
    (
      s4,
      rw (get_state-found self s t e, run),
      Half-Synced (
          Half-trans none_late none_late none_late 0 1 s s2 s4 hl.half
            (Half-trans none_late (only self) none_late 1 0 s2 s3 s4 h3 h4)),
    )

-- One thread takes what another knows, which then moves on: the two halves of a fork and a join.
module _ (giver taker : ℕ) (s : State) (i : IsSystem s) (t u t' u' : ThreadState) (n : ℕ)
    (e : lookup giver s.threads ≡ some t) (f : lookup taker s.threads ≡ some u) (ne : giver ≢ taker)
    (jn : Joined u t.c u') (size : length t.c ≤ n) (tk : Ticked t n t') where
  take-Half : Half none_late (only giver) 1 s (record s { threads = insert taker u' s.threads })
  take-Half =
      let st = IsSystem-Settling i in
      let r : Replaces none_late (only giver) s st taker u u' = record {
        found = f;
        grown = Joined-Grown jn;
        size = omega (arith, jn.size);
        others = λ k _. omega arith;
        mine = omega (arith, jn.epoch);
        ahead = λ k w g other.
            omega
              (arith, jn.reads w.tid, i.behind k taker w u g f other, handed giver s st t e k w g);
        made = join u.c t.c (of_thread taker u f refl) (of_thread giver t e refl) jn.reads;
      } in
      thread-Half none_late (only giver) 1 s st (λ k. ground arith) taker u u' r
        (ground (arith, jn.epoch))

  pub pass-Synced : Synced s (record s { threads = insert giver t' (insert taker u' s.threads) })
  pass-Synced =
      let h = take-Half in
      let s1 : State = record s { threads = insert taker u' s.threads } in
      let s2 : State = record s { threads = insert giver t' (insert taker u' s.threads) } in
      let e1 : lookup giver s1.threads ≡ some t =
        lookup-insert_other taker giver u' s.threads (λ z. ne (sym z)) ∙ e in
      let r = tick-Replaces giver s1 h.settling t t' n e1 size tk in
      let h2 =
        thread-Half (only giver) none_late 0 s1 h.settling (λ k. omega arith) giver t t' r
          (ground (arith, tk.epoch)) in
      Half-Synced (Half-trans none_late (only giver) none_late 1 0 s s1 s2 h h2)

-- Starting another registered thread in a well-formed system, by a registered thread whose epoch can
-- still grow within its 24 bits, does not fault: the count of running threads goes up by one, the
-- system stays well formed, every variable stands for the accesses that it stood for, and each
-- thread's epoch moves on by one at most.
pub fork_state-Synced :
    (child self : ℕ) (s : State) (t u : ThreadState)
    → IsSystem s
    → lookup self s.threads ≡ some t
    → lookup child s.threads ≡ some u
    → self ≢ child
    → HasRoom t
    → Returns (fork_state child self s) λ s'.
      (s'.is_concurrent ≡ u32 (s.is_concurrent + 1))
      × Synced s (record s' { is_concurrent = s.is_concurrent })
unfolding fork_state
fork_state-Synced child self s t u i e f ne room =
    let ((t', u'), run, (tk, jn)) =
      ft_fork-Ticked t u (i.thread self t e) (i.thread child u f) room
        (omega (arith, i.behind child self u t f e (λ z. ne (sym z)))) in
    (
      record s {
        threads = insert self t' (insert child u' s.threads);
        is_concurrent = u32 (s.is_concurrent + 1);
      },
      rw (
        get_state-found self s t e,
        get_state-found child s u f,
        get_state-found self s t e,
        ne→eqb self child ne,
        run,
      ),
      (refl, pass-Synced self child s i t u t' u' _ e f ne jn (omega arith) tk),
    )

-- Waiting, by a registered thread of a well-formed system, for another one whose epoch can still grow
-- within its 24 bits, does not fault: the count of running threads goes down by one and stays at
-- zero, the system stays well formed, every variable stands for the accesses that it stood for, and
-- each thread's epoch moves on by one at most.
pub join_state-Synced :
    (child self : ℕ) (s : State) (t u : ThreadState)
    → IsSystem s
    → lookup self s.threads ≡ some t
    → lookup child s.threads ≡ some u
    → self ≢ child
    → HasRoom u
    → Returns (join_state child self s) λ s'.
      (s'.is_concurrent ≡ s.is_concurrent - 1)
      × Synced s (record s' { is_concurrent = s.is_concurrent })
unfolding join_state
join_state-Synced child self s t u i e f ne room =
    let ((t', u'), run, (jn, tk)) =
      ft_join-Ticked t u (i.thread self t e) (i.thread child u f) room
        (omega (arith, i.behind self child t u e f ne)) in
    (
      record s {
        threads = insert child u' (insert self t' s.threads);
        is_concurrent = if s.is_concurrent == 0 then 0 else s.is_concurrent - 1;
      },
      rw (
        get_state-found self s t e,
        get_state-found child s u f,
        get_state-found self s t e,
        ne→eqb self child ne,
        run,
      ),
      (
        ground arith,
        pass-Synced child self s i u t u' t' _ f e (λ z. ne (sym z)) jn (omega arith) tk,
      ),
    )
