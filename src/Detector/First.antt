-- ===== src/Detector/First.antt =====
-- The first access to a variable: what `getVarState` makes stands for it.
use embed_sanitizer.Common.{
  ℕ, ◌<◌, ◌≡◌, ◌≢◌, refl, sym, false, inl, some, [], ◌∷◌, lookup, get_or, arith,
}
use embed_sanitizer.Clock.{VectorClock, tid_of, shl24}
use embed_sanitizer.Clock.Entry.{IsClock, max_tid, shl24-IsEpoch}
use embed_sanitizer.State.{ThreadState, State}
use embed_sanitizer.FastTrack.Ticks.{tid-lt}
use embed_sanitizer.Detector.{IsSystem, Tracks, Knows, Owned, exclusive, by_read, Implies}
use embed_sanitizer.Detector.Own.{
  epoch-IsEpoch, epoch-Knows, epoch-Owned, epoch-IsStamp, epoch-Implies, epoch-ne-shared, alone,
  own-View,
}

module _ (s : State) (k : ℕ) (t : ThreadState) (i : IsSystem s)
    (e : lookup k s.threads ≡ some t) where
  zero_tid : tid_of (shl24 t.tid) ≡ t.tid
  zero_tid = omega (arith, tid-lt (i.thread k t e))

  zero-Owned : (j : ℕ) → j < max_tid → Owned s (shl24 j)
  zero-Owned j lt l u f q = let p = epoch-IsEpoch s l u i f in omega (arith, p.low)

  zero-Knows : (v : VectorClock) → IsClock v → Knows v (shl24 t.tid)
  zero-Knows v c =
      let lt = tid-lt (i.thread k t e) in rw zero_tid (omega (arith, (c.entries t.tid lt).low))

  -- No thread is in an epoch of clock zero.
  zero_ne : (l : ℕ) (u : ThreadState) → lookup l s.threads ≡ some u → shl24 t.tid ≢ u.epoch
  zero_ne l u f =
      let p = epoch-IsEpoch s l u i f in
      omega (arith, i.started l u f, p.low, p.high, tid-lt (i.thread k t e))

  self : Implies s t.epoch t.epoch
  self = epoch-Implies s k t i e t.epoch (epoch-Knows s k t i e)

  pub first_read-Tracks :
      Tracks s
        (record { w = shl24 t.tid; r = t.epoch; rvc = []; racy = false })
        (record { reads = t.epoch ∷ []; writes = [] })
  unfolding get_or
  first_read-Tracks =
      let lt = tid-lt (i.thread k t e) in
      let ne = epoch-ne-shared s k t i e in
      record {
        calm = refl;
        w_stamp = (omega arith, omega (arith, zero_tid, (i.wide k t e).0));
        r_stamp = λ _. epoch-IsStamp s k t i e;
        rvc_epochs = λ u l. shl24-IsEpoch u l;
        rvc_size = inl refl;
        rvc_shared = λ z. absurd (ne z);
        w_owned = zero-Owned t.tid lt;
        r_owned = λ _. epoch-Owned s k t i e;
        rvc_owned = zero-Owned;
        w_upper = tt;
        r_upper = (by_read t.epoch (exclusive ne refl) self, tt);
        w_lower = λ v c _. zero-Knows v c;
        r_lower = λ v c all _. all.0;
        rvc_lower = λ v c all u l. omega (arith, (c.entries u l).low);
        same_read = λ j u f z. tt;
        same_write = λ j u f z. absurd (zero_ne j u f z);
      }

  pub first_write-Tracks :
      Tracks s
        (record { w = t.epoch; r = shl24 t.tid; rvc = []; racy = false })
        (record { reads = []; writes = t.epoch ∷ [] })
  unfolding get_or
  first_write-Tracks =
      let lt = tid-lt (i.thread k t e) in
      record {
        calm = refl;
        w_stamp = epoch-IsStamp s k t i e;
        r_stamp = λ _. (omega arith, omega (arith, zero_tid, (i.wide k t e).0));
        rvc_epochs = λ u l. shl24-IsEpoch u l;
        rvc_size = inl refl;
        rvc_shared = λ z. absurd (omega (arith, z));
        w_owned = epoch-Owned s k t i e;
        r_owned = λ _. zero-Owned t.tid lt;
        rvc_owned = zero-Owned;
        w_upper = (self, tt);
        r_upper = tt;
        w_lower = λ v c all. all.0;
        r_lower = λ v c _ _. zero-Knows v c;
        rvc_lower = λ v c all u l. omega (arith, (c.entries u l).low);
        same_read = λ j u f z. absurd (zero_ne j u f z);
        same_write = λ j u f z.
            let same =
              alone s j u i f t.c (own-View s k t i e) (rw (sym z) (epoch-Knows s k t i e)) in
            ((rw (sym same) (epoch-Knows s k t i e), tt), tt);
      }
