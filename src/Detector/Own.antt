-- ===== src/Detector/Own.antt =====
-- A running thread and its epoch: what it knows, and that no other clock knows its epoch.
use embed_sanitizer.Common.{
  ap, some-inj, ℕ, ◌≤◌, ◌<◌, ◌≡◌, ◌≢◌, ◌∙◌, refl, sym, some, lookup, arith, Bool-cases, inl, inr,
}
use embed_sanitizer.Clock.{VectorClock, tid_of, shl24, read_shared}
use embed_sanitizer.Clock.Entry.{IsEpoch, tid_of-IsEpoch}
use embed_sanitizer.State.{ThreadState, VarState, State}
use embed_sanitizer.FastTrack.Ticks.{tid-lt}
use embed_sanitizer.Detector.{
  knows, Knows, all_known, View, of_thread, IsSystem, Implies, Owned, IsStamp, Tracks, History,
}
use embed_sanitizer.Detector.Check.{only_own, Each-all_known, all_known-Each, Each-map}

module _ (s : State) (k : ℕ) (t : ThreadState) (i : IsSystem s)
    (e : lookup k s.threads ≡ some t) where
  pub epoch-IsEpoch : IsEpoch t.tid t.epoch
  epoch-IsEpoch =
      let v = i.thread k t e in
      let p = v.clocks.entries t.tid (tid-lt v) in
      record { low = omega (arith, v.own, p.low); high = omega (arith, v.own, p.high) }

  pub tid_of-epoch : tid_of t.epoch ≡ t.tid
  tid_of-epoch = tid_of-IsEpoch t.tid t.epoch (tid-lt (i.thread k t e)) epoch-IsEpoch

  pub epoch-IsStamp : IsStamp s.num_threads t.epoch
  epoch-IsStamp =
      let p = epoch-IsEpoch in
      let l = tid-lt (i.thread k t e) in
      (omega arith, omega (arith, tid_of-epoch, (i.wide k t e).0))

  pub epoch-ne-shared : t.epoch ≢ read_shared
  epoch-ne-shared = omega (arith, epoch-IsStamp.0)

  pub own-View : View s t.c
  own-View = of_thread k t e refl

  pub epoch-Knows : Knows t.c t.epoch
  epoch-Knows = rw (tid_of-epoch, (i.thread k t e).own) (omega arith)

  -- The thread knows its own epochs.
  pub own-Knows : (b : ℕ) → tid_of b ≡ t.tid → b ≤ t.epoch → Knows t.c b
  own-Knows b q l = rw (q, (i.thread k t e).own) l

  -- Whoever knows the epoch is the thread.
  pub alone : (v : VectorClock) → View s v → Knows v t.epoch → v ≡ t.c
  alone v w h = only_own s k t v i e w (rw (sym tid_of-epoch) h)

  pub live : shl24 (tid_of t.epoch) < t.epoch
  live = rw tid_of-epoch (omega (arith, tid-lt (i.thread k t e), i.started k t e))

  pub epoch-Implies : (a : ℕ) → Knows t.c a → Implies s t.epoch a
  epoch-Implies a h = (live, λ v w q. rw (alone v w q) h)

  pub epoch-Owned : Owned s t.epoch
  epoch-Owned j u f q =
      let same = i.unique k j t u e f (sym tid_of-epoch ∙ q) in
      let f' : lookup k s.threads ≡ some u = rw same f in
      omega (arith, ap (λ (x : ThreadState). x.epoch) (some-inj (sym e ∙ f')))

  module _ {x : VarState} {h : History} (tr : Tracks s x h) where
    -- The last write is known if and only if every write is.
    pub write_known : knows t.c x.w ≡ all_known t.c h.writes
    write_known = elim (Bool-cases (all_known t.c h.writes)) [
      | inl yes' ↦
          let q = tr.w_lower t.c (i.thread k t e).clocks (all_known-Each t.c h.writes yes') in
          rw yes' (ground arith)
      | inr no' ↦ elim (Bool-cases (knows t.c x.w)) [
        | inl y ↦
            let q : Knows t.c x.w = ground arith in
            let all = Each-all_known t.c h.writes (
              Each-map (Implies s x.w) (Knows t.c) h.writes (λ a f. f.1 t.c own-View q)
                tr.w_upper) in
            cc
        | inr n ↦ n ∙ sym no'
      ]
    ]
