-- ===== src/Detector/Settle.antt =====
-- Between the two halves of a synchronisation a thread's epoch may be known to others: `slack` says
-- of which thread. Each half replaces one clock.
use embed_sanitizer.Common.{
  ap, ℕ, ◌+◌, ◌*◌, ◌^◌, ◌≤◌, ◌<◌, ◌≡◌, ◌≢◌, ◌∙◌, refl, sym, inl, inr, some, lookup, insert,
  lookup-insert_cases, some-inj, arith, length,
}
use embed_sanitizer.Clock.{VectorClock}
use embed_sanitizer.Clock.Entry.{entry, IsClock, max_tid}
use embed_sanitizer.State.{ThreadState, State}
use embed_sanitizer.FastTrack.Ticks.{IsThread}
use embed_sanitizer.Detector.{View, of_thread, of_lock, IsSystem}
use embed_sanitizer.Detector.Advance.{Derived, copy, Grown, Advance}

pub record Settling (slack : ℕ → ℕ) (s : State) : Type 0 where
  pub few : s.num_threads ≤ max_tid
  pub thread : (k : ℕ) (t : ThreadState) → lookup k s.threads ≡ some t → IsThread t
  pub wide :
      (k : ℕ) (t : ThreadState)
      → lookup k s.threads ≡ some t
      → (t.tid < s.num_threads) × (s.num_threads ≤ length t.c)
  pub started : (k : ℕ) (t : ThreadState) → lookup k s.threads ≡ some t → t.tid * 2 ^ 24 < t.epoch
  pub lock : (k : ℕ) (l : VectorClock) → lookup k s.locks ≡ some l → IsClock l
  pub unique :
      (k j : ℕ) (t u : ThreadState)
      → lookup k s.threads ≡ some t
      → lookup j s.threads ≡ some u
      → t.tid ≡ u.tid
      → k ≡ j
  pub behind :
      (k j : ℕ) (t u : ThreadState)
      → lookup k s.threads ≡ some t
      → lookup j s.threads ≡ some u
      → k ≢ j
      → entry u.c t.tid < t.epoch + slack k
  pub behind_lock :
      (k j : ℕ) (t : ThreadState) (l : VectorClock)
      → lookup k s.threads ≡ some t
      → lookup j s.locks ≡ some l
      → entry l t.tid < t.epoch + slack k

pub IsSystem-Settling : {s : State} → IsSystem s → Settling (λ _. 0) s
IsSystem-Settling i = record {
  few = i.few;
  thread = i.thread;
  wide = i.wide;
  started = i.started;
  lock = i.lock;
  unique = i.unique;
  behind = λ k j t u e f ne. omega (arith, i.behind k j t u e f ne);
  behind_lock = λ k j t l e f. omega (arith, i.behind_lock k j t l e f);
}

pub Settling-IsSystem :
    (slack : ℕ → ℕ) {s : State} → ((k : ℕ) → slack k ≡ 0) → Settling slack s → IsSystem s
Settling-IsSystem slack z i = record {
  few = i.few;
  thread = i.thread;
  wide = i.wide;
  started = i.started;
  lock = i.lock;
  unique = i.unique;
  behind = λ k j t u e f ne. omega (arith, z k, i.behind k j t u e f ne);
  behind_lock = λ k j t l e f. omega (arith, z k, i.behind_lock k j t l e f);
}

pub Grown-refl : (t : ThreadState) → IsThread t → Grown t t
Grown-refl t v = record { valid = v; tid = refl; epoch = omega arith; mono = λ j. omega arith }

module _ (slack slack' : ℕ → ℕ) (s : State) (i : Settling slack s) where
  -- Thread `j` goes on as `u'`.
  pub record Replaces (j : ℕ) (u u' : ThreadState) : Type 0 where
    pub found : lookup j s.threads ≡ some u
    pub grown : Grown u u'
    pub size : length u.c ≤ length u'.c
    pub others : (k : ℕ) → k ≢ j → slack k ≤ slack' k
    pub mine : u.epoch + slack j ≤ u'.epoch + slack' j
    pub ahead :
        (k : ℕ) (t : ThreadState)
        → lookup k s.threads ≡ some t
        → k ≢ j
        → entry u'.c t.tid < t.epoch + slack' k
    pub made : Derived s u'.c

  module _ (j : ℕ) (u u' : ThreadState) (r : Replaces j u u') where
    -- A thread of the new state, with what it was before.
    before :
        (k : ℕ) (t' : ThreadState)
        → lookup k (insert j u' s.threads) ≡ some t'
        → (t : ThreadState) × (lookup k s.threads ≡ some t)
          × Grown t t'
          × (length t.c ≤ length t'.c)
    before k t' e = elim (lookup-insert_cases j k u' t' s.threads e) [
      | inl (same, q) ↦ (u, rw (sym same) r.found, rw (sym q) r.grown, rw (sym q) r.size)
      | inr (_, old) ↦ (t', old, Grown-refl t' (i.thread k t' old), omega arith)
    ]

    -- What is still behind an epoch of the new state was behind the old one.
    raised :
        (k x : ℕ) (t t' : ThreadState)
        → lookup k s.threads ≡ some t
        → lookup k (insert j u' s.threads) ≡ some t'
        → x < t.epoch + slack k
        → x < t'.epoch + slack' k
    raised k x t t' e e' h = elim (lookup-insert_cases j k u' t' s.threads e') [
      | inl (same, q) ↦
          let is_u : t ≡ u = some-inj (sym e ∙ rw (sym same) r.found) in
          let h' : x < u.epoch + slack j = rw (is_u, sym same) at h in
          let m : x < u'.epoch + slack' j = omega (arith, r.mine) in rw (sym q, sym same) m
      | inr (ne, old) ↦
          let is_t = some-inj (sym e ∙ old) in
          let o = r.others k (λ z. ne (sym z)) in
          omega (arith, ap (λ (y : ThreadState). y.epoch) is_t)
    ]

    replaced-View :
        (v : VectorClock) → View (record s { threads = insert j u' s.threads }) v → Derived s v
    replaced-View v (of_lock k e) = copy v (of_lock k e) (λ _. refl)
    replaced-View v (of_thread k t' e q) = elim (lookup-insert_cases j k u' t' s.threads e) [
      | inl (_, same) ↦ rw (q, sym same) r.made
      | inr (_, old) ↦ copy v (of_thread k t' old q) (λ _. refl)
    ]

    pub replace_thread-Advance : Advance s (record s { threads = insert j u' s.threads })
    replace_thread-Advance = record {
      num = refl;
      thread = λ k t' e. let (t, old, g, _) = before k t' e in (t, old, g);
      view = replaced-View;
    }

    pub replace_thread-Settling : Settling slack' (record s { threads = insert j u' s.threads })
    replace_thread-Settling = record {
      few = i.few;
      thread = λ k t' e. (before k t' e).2.valid;
      wide = λ k t' e.
          let (t, old, g, size) = before k t' e in
          let w = i.wide k t old in omega (arith, g.tid, w.0, w.1);
      started = λ k t' e.
          let (t, old, g, _) = before k t' e in omega (arith, g.tid, g.epoch, i.started k t old);
      lock = i.lock;
      unique = λ k l t' w' e f q.
          let (t, old, g, _) = before k t' e in
          let (w, old', g', _) = before l w' f in
          i.unique k l t w old old' (omega (arith, g.tid, g'.tid));
      behind = λ k l t' w' e f ne.
          let (t, old, g, _) = before k t' e in
          elim (lookup-insert_cases j l u' w' s.threads f) [
            | inl (same, q) ↦ elim (lookup-insert_cases j k u' t' s.threads e) [
              | inl (here, _) ↦ absurd (ne (sym here ∙ same))
              | inr (other, o) ↦ rw (sym q) (r.ahead k t' o (λ z. other (sym z)))
            ]
            | inr (_, old') ↦
                let h = raised k (entry w'.c t.tid) t t' old e (i.behind k l t w' old old' ne) in
                rw g.tid h
          ];
      behind_lock = λ k l t' c e f.
          let (t, old, g, _) = before k t' e in
          let h = raised k (entry c t.tid) t t' old e (i.behind_lock k l t c old f) in rw g.tid h;
    }

  -- Lock `m` goes on with the clock `l`.
  pub record ReplacesLock (m : ℕ) (l : VectorClock) : Type 0 where
    pub valid : IsClock l
    pub others : (k : ℕ) → slack k ≤ slack' k
    pub ahead :
        (k : ℕ) (t : ThreadState) → lookup k s.threads ≡ some t → entry l t.tid < t.epoch + slack' k
    pub made : Derived s l

  module _ (m : ℕ) (l : VectorClock) (r : ReplacesLock m l) where
    replaced_lock-View :
        (v : VectorClock) → View (record s { locks = insert m l s.locks }) v → Derived s v
    replaced_lock-View v (of_thread k t e q) = copy v (of_thread k t e q) (λ _. refl)
    replaced_lock-View v (of_lock k e) = elim (lookup-insert_cases m k l v s.locks e) [
      | inl (_, same) ↦ rw (sym same) r.made
      | inr (_, old) ↦ copy v (of_lock k old) (λ _. refl)
    ]

    pub replace_lock-Advance : Advance s (record s { locks = insert m l s.locks })
    replace_lock-Advance = record {
      num = refl;
      thread = λ k t e. (t, e, Grown-refl t (i.thread k t e));
      view = replaced_lock-View;
    }

    pub replace_lock-Settling : Settling slack' (record s { locks = insert m l s.locks })
    replace_lock-Settling = record {
      few = i.few;
      thread = i.thread;
      wide = i.wide;
      started = i.started;
      lock = λ k c e. elim (lookup-insert_cases m k l c s.locks e) [
        | inl (_, same) ↦ rw (sym same) r.valid
        | inr (_, old) ↦ i.lock k c old
      ];
      unique = i.unique;
      behind = λ k j t u e f ne. omega (arith, i.behind k j t u e f ne, r.others k);
      behind_lock = λ k j t c e f. elim (lookup-insert_cases m j l c s.locks f) [
        | inl (_, same) ↦ rw (sym same) (r.ahead k t e)
        | inr (_, old) ↦ omega (arith, i.behind_lock k j t c e old, r.others k)
      ];
    }
