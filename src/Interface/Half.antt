-- ===== src/Interface/Half.antt =====
-- One half of a synchronisation callback, and what its halves come to.
use embed_sanitizer.Common.{
  Bool-cases, eqb→eq, eqb→ne, ap, ℕ, ◌+◌, ◌≤◌, ◌<◌, ◌≡◌, ◌≢◌, ◌∙◌, refl, sym, inl, inr, some,
  lookup, insert, lookup-insert_cases, lookup-insert-some, some-inj, arith, length, ◌==◌,
  if◌then◌else◌,
}
use embed_sanitizer.Clock.{VectorClock}
use embed_sanitizer.Clock.Entry.{entry}
use embed_sanitizer.State.{ThreadState, VarState, State}
use embed_sanitizer.FastTrack.Ticks.{IsThread, Joined, Ticked}
use embed_sanitizer.Detector.{Tracks, History}
use embed_sanitizer.Detector.Advance.{tick, Grown, Advance-Tracks}
use embed_sanitizer.Detector.Settle.{
  Settling, Replaces, replace_thread-Advance, replace_thread-Settling, ReplacesLock,
  replace_lock-Advance, replace_lock-Settling,
}

-- Nothing is lost from `s` to `s'`; a thread's epoch, with the slack that it has, grows by `cost`.
pub record Half (slack slack' : ℕ → ℕ) (cost : ℕ) (s s' : State) : Type 0 where
  pub settling : Settling slack' s'
  pub tracks : (x : VarState) (h : History) → Tracks s x h → Tracks s' x h
  pub vstates : s'.vstates ≡ s.vstates
  pub num : s'.num_threads ≡ s.num_threads
  pub counters :
      (s'.reads ≡ s.reads) × (s'.writes ≡ s.writes) × (s'.is_concurrent ≡ s.is_concurrent)
  pub known :
      (k : ℕ) (t : ThreadState)
      → lookup k s.threads ≡ some t
      → (t' : ThreadState) × (lookup k s'.threads ≡ some t')
  pub paced :
      (k : ℕ) (t' : ThreadState)
      → lookup k s'.threads ≡ some t'
      → (t : ThreadState) × (lookup k s.threads ≡ some t)
        × (t'.tid ≡ t.tid)
        × (t'.epoch + slack' k ≤ t.epoch + slack k + cost)

pub Half-refl : (slack : ℕ → ℕ) (s : State) → Settling slack s → Half slack slack 0 s s
Half-refl slack s st = record {
  settling = st;
  tracks = λ x h t. t;
  vstates = refl;
  num = refl;
  counters = (refl, refl, refl);
  known = λ k t e. (t, e);
  paced = λ k t e. (t, e, refl, omega arith);
}

pub Half-trans :
    (a b c : ℕ → ℕ) (m n : ℕ) (s s1 s2 : State)
    → Half a b m s s1
    → Half b c n s1 s2
    → Half a c (m + n) s s2
Half-trans a b c m n s s1 s2 p q = record {
  settling = q.settling;
  tracks = λ x h t. q.tracks x h (p.tracks x h t);
  vstates = q.vstates ∙ p.vstates;
  num = q.num ∙ p.num;
  counters =
      (q.counters.0 ∙ p.counters.0, q.counters.1 ∙ p.counters.1, q.counters.2 ∙ p.counters.2);
  known = λ k t e. let (t', e') = p.known k t e in q.known k t' e';
  paced = λ k t e.
      let (t1, e1, i1, l1) = q.paced k t e in
      let (t0, e0, i0, l0) = p.paced k t1 e1 in (t0, e0, i1 ∙ i0, omega arith);
}

module _ (slack slack' : ℕ → ℕ) (cost : ℕ) (s : State) (st : Settling slack s)
    (low : (k : ℕ) → slack' k ≤ slack k + cost) where
  pub thread-Half :
      (j : ℕ) (u u' : ThreadState)
      → Replaces slack slack' s st j u u'
      → u'.epoch + slack' j ≤ u.epoch + slack j + cost
      → Half slack slack' cost s (record s { threads = insert j u' s.threads })
  thread-Half j u u' r bound = record {
    settling = replace_thread-Settling slack slack' s st j u u' r;
    tracks = λ x h t.
        Advance-Tracks s _ x h st.few (replace_thread-Advance slack slack' s st j u u' r) t;
    vstates = refl;
    num = refl;
    counters = (refl, refl, refl);
    known = λ k t e. lookup-insert-some j k u' t s.threads e;
    paced = λ k t e. elim (lookup-insert_cases j k u' t s.threads e) [
      | inl (same, z) ↦
          let b : u'.epoch + slack' k ≤ u.epoch + slack k + cost = rw (sym same) bound in
          (u, rw (sym same) r.found, rw (sym z) r.grown.tid, rw (sym z) b)
      | inr (_, old) ↦ (t, old, refl, omega (arith, low k))
    ];
  }

  pub lock-Half :
      (m : ℕ) (l : VectorClock)
      → ReplacesLock slack slack' s st m l
      → Half slack slack' cost s (record s { locks = insert m l s.locks })
  lock-Half m l r = record {
    settling = replace_lock-Settling slack slack' s st m l r;
    tracks =
        λ x h t. Advance-Tracks s _ x h st.few (replace_lock-Advance slack slack' s st m l r) t;
    vstates = refl;
    num = refl;
    counters = (refl, refl, refl);
    known = λ k t e. (t, e);
    paced = λ k t e. (t, e, refl, omega (arith, low k));
  }

pub Joined-Grown :
    {t : ThreadState} {l : VectorClock} {t' : ThreadState} → Joined t l t' → Grown t t'
Joined-Grown j = record {
  valid = j.valid;
  tid = j.tid;
  epoch = omega (arith, j.epoch);
  mono = λ i. omega (arith, j.reads i);
}

Ticked-Grown :
    {t : ThreadState} {n : ℕ} {t' : ThreadState} → IsThread t → Ticked t n t' → Grown t t'
Ticked-Grown v j = record {
  valid = j.valid;
  tid = j.tid;
  epoch = omega (arith, j.epoch);
  mono = λ i. ground (arith, j.reads i, v.own);
}

-- The slack of a thread whose epoch is being handed out.
abbrev pub only : ℕ → ℕ → ℕ
only self k = if k == self then 1 else 0

abbrev pub none_late : ℕ → ℕ
none_late _ = 0

-- The last half of a synchronisation that hands a thread's epoch out: the thread moves on.
pub tick-Replaces :
    (self : ℕ) (s : State) (st : Settling (only self) s) (t t' : ThreadState) (n : ℕ)
    → lookup self s.threads ≡ some t
    → length t.c ≤ n
    → Ticked t n t'
    → Replaces (only self) none_late s st self t t'
tick-Replaces self s st t t' n e size j = record {
  found = e;
  grown = Ticked-Grown (st.thread self t e) j;
  size = omega (arith, j.size);
  others = λ k ne. ground arith;
  mine = ground (arith, j.epoch);
  ahead = λ k u f ne.
      let other : t.tid ≢ u.tid = λ z. ne (st.unique k self u t f e (sym z)) in
      ground (arith, j.reads u.tid, st.behind k self u t f e ne);
  made = tick self t e ((st.thread self t e).own) j.reads;
}

-- A thread's clock, handed out, is behind every epoch but the thread's own.
pub handed :
    (self : ℕ) (s : State) (st : Settling none_late s) (t : ThreadState)
    → lookup self s.threads ≡ some t
    → (k : ℕ) (u : ThreadState) → lookup k s.threads ≡ some u
    → entry t.c u.tid < u.epoch + only self k
handed self s st t e k u f = elim (Bool-cases (k == self)) [
  | inl same ↦
      let f' : lookup self s.threads ≡ some u = rw (sym (eqb→eq k self same)) f in
      let is_t = some-inj (sym e ∙ f') in
      let is_epoch = ap (λ (y : ThreadState). y.epoch) is_t in
      let le : entry t.c u.tid ≤ u.epoch =
        rw (sym (ap (λ (y : ThreadState). y.tid) is_t))
          (omega (arith, is_epoch, (st.thread self t e).own)) in
      ground (arith, le)
  | inr other ↦ omega (arith, st.behind k self u t f e (eqb→ne k self other))
]
