-- ===== src/Detector/Shared.antt =====
-- The branches of `ft_read` that keep the reads in `Rvc`: the invariant is kept.
use embed_sanitizer.Common.{
  ℕ, ◌≤◌, ◌<◌, ◌≡◌, ◌≢◌, ◌∙◌, refl, sym, some, length, lookup, arith, Bool-cases, ◌==◌, inl, inr,
  set, length-set, eqb→eq,
}
use embed_sanitizer.Clock.{VectorClock, tid_of, read_shared}
use embed_sanitizer.Clock.Entry.{
  entry, IsEpoch, tid_of-IsEpoch, entry-set_self, entry-set_other, entry-set_elim,
}
use embed_sanitizer.State.{ThreadState, VarState, State}
use embed_sanitizer.FastTrack.Ticks.{tid-lt}
use embed_sanitizer.Detector.{
  Knows, add_read, IsSystem, shared, exclusive, Covered, by_write, by_read, Owned, Tracks, History,
}
use embed_sanitizer.Detector.Check.{stamp-IsEpoch, Each-map}
use embed_sanitizer.Detector.Own.{
  epoch-IsEpoch, tid_of-epoch, epoch-ne-shared, own-View, own-Knows, epoch-Implies, epoch-Owned,
}
use embed_sanitizer.Detector.Exclusive.{write_epoch_known, self}

module _ (s : State) (k : ℕ) (t : ThreadState) (i : IsSystem s) (e : lookup k s.threads ≡ some t)
    (x : VarState) (h : History) (tr : Tracks s x h) where
  -- The branch "Shared": the thread's entry of `Rvc` is set.
  shared-Covered :
      x.r ≡ read_shared
      → (a : ℕ) → Covered s x a
      → Covered s (record x { rvc = set x.rvc t.tid t.epoch }) a
  shared-Covered sh a (by_write f) = by_write f
  shared-Covered sh a (by_read b (exclusive z q) f) = absurd (z sh)
  shared-Covered sh a (by_read b (shared u l z q) f) =
      let within : t.tid < length x.rvc = omega (arith, (i.wide k t e).0, tr.rvc_shared sh) in
      let len = length-set x.rvc t.tid t.epoch in
      elim (Bool-cases (t.tid == u)) [
        | inl mine ↦
            let lt = tid-lt (i.thread k t e) in
            let mine' : b ≡ entry x.rvc t.tid = rw (eqb→eq t.tid u mine) q in
            let id = tid_of-IsEpoch t.tid (entry x.rvc t.tid) lt (tr.rvc_epochs t.tid lt) in
            let le = tr.rvc_owned t.tid lt k t e id in
            let known : Knows t.c b = rw mine' (own-Knows s k t i e (entry x.rvc t.tid) id le) in
            by_read t.epoch
              (shared t.tid (omega (arith, len)) sh
                (sym (entry-set_self x.rvc t.tid t.epoch within)))
              (epoch-Implies s k t i e a (f.1 t.c (own-View s k t i e) known))
        | inr other ↦
            by_read b
              (shared u (omega (arith, len)) sh
                (q ∙ sym (entry-set_other x.rvc t.tid t.epoch u within other)))
              f
      ]

  pub shared-Tracks :
      x.r ≡ read_shared
      → Knows t.c x.w
      → Tracks s (record x { rvc = set x.rvc t.tid t.epoch }) (add_read t.epoch h)
  unfolding add_read
  shared-Tracks sh q =
      let size = tr.rvc_shared sh in
      let within : t.tid < length x.rvc = omega (arith, (i.wide k t e).0) in
      let len = length-set x.rvc t.tid t.epoch in
      record {
        calm = tr.calm;
        w_stamp = tr.w_stamp;
        r_stamp = tr.r_stamp;
        rvc_epochs = λ u l.
            entry-set_elim (IsEpoch u) x.rvc t.tid t.epoch u within
              (λ same. rw (sym same) (epoch-IsEpoch s k t i e)) (tr.rvc_epochs u l);
        rvc_size = inr (len ∙ size);
        rvc_shared = λ _. len ∙ size;
        w_owned = tr.w_owned;
        r_owned = tr.r_owned;
        rvc_owned = λ u l.
            entry-set_elim (Owned s) x.rvc t.tid t.epoch u within (λ _. epoch-Owned s k t i e)
              (tr.rvc_owned u l);
        w_upper = tr.w_upper;
        r_upper = (
          by_read t.epoch
              (shared t.tid (omega (arith, len)) sh
                (sym (entry-set_self x.rvc t.tid t.epoch within)))
              (self s k t i e x h tr),
          Each-map (Covered s x) (Covered s (record x { rvc = set x.rvc t.tid t.epoch })) h.reads
              (shared-Covered sh) tr.r_upper,
        );
        w_lower = tr.w_lower;
        r_lower = λ v c all. tr.r_lower v c all.1;
        rvc_lower = λ v c all u l.
            entry-set_elim (λ z. z ≤ entry v u) x.rvc t.tid t.epoch u within
              (λ same. rw (sym same) (rw (tid_of-epoch s k t i e) at (all.0)))
              (tr.rvc_lower v c all.1 u l);
        same_read = tr.same_read;
        same_write = λ j u f z.
            let old = tr.same_write j u f z in
            (old.0, (write_epoch_known s k t i e x h tr q j u f z, old.1));
      }

  -- The branch "Share", its first half: the last read moves into `Rvc`, here `base` without it.
  share-Covered :
      (base : VectorClock)
      → tid_of x.r < length base
      → x.r ≢ read_shared
      → (a : ℕ) → Covered s x a
      → Covered s (record x { r = read_shared; rvc = set base (tid_of x.r) x.r }) a
  share-Covered base l ne a (by_write f) = by_write f
  share-Covered base l ne a (by_read b (shared u m z q) f) = absurd (ne z)
  share-Covered base l ne a (by_read b (exclusive z q) f) =
      by_read b
        (shared (tid_of x.r) (omega (arith, length-set base (tid_of x.r) x.r)) refl
          (q ∙ sym (entry-set_self base (tid_of x.r) x.r l)))
        f

  pub share-Tracks :
      (base : VectorClock)
      → length base ≡ s.num_threads
      → ((u : ℕ) → entry base u ≡ entry x.rvc u)
      → x.r ≢ read_shared
      → Tracks s (record x { r = read_shared; rvc = set base (tid_of x.r) x.r }) h
  share-Tracks base size same ne =
      let st = tr.r_stamp ne in
      let p = stamp-IsEpoch s.num_threads x.r st in
      let within : tid_of x.r < length base = omega (arith, st.1) in
      let len = length-set base (tid_of x.r) x.r in
      record {
        calm = tr.calm;
        w_stamp = tr.w_stamp;
        r_stamp = λ z. absurd (z refl);
        rvc_epochs = λ u l.
            entry-set_elim (IsEpoch u) base (tid_of x.r) x.r u within (λ z. rw (sym z) p.1)
              (rw (same u) (tr.rvc_epochs u l));
        rvc_size = inr (len ∙ size);
        rvc_shared = λ _. len ∙ size;
        w_owned = tr.w_owned;
        r_owned = λ z. absurd (z refl);
        rvc_owned = λ u l.
            entry-set_elim (Owned s) base (tid_of x.r) x.r u within (λ _. tr.r_owned ne)
              (rw (same u) (tr.rvc_owned u l));
        w_upper = tr.w_upper;
        r_upper =
            Each-map (Covered s x)
              (Covered s (record x { r = read_shared; rvc = set base (tid_of x.r) x.r })) h.reads
              (share-Covered base within ne) tr.r_upper;
        w_lower = tr.w_lower;
        r_lower = λ v c all z. absurd (z refl);
        rvc_lower = λ v c all u l.
            entry-set_elim (λ z. z ≤ entry v u) base (tid_of x.r) x.r u within
              (λ z. rw (sym z) (tr.r_lower v c all ne)) (rw (same u) (tr.rvc_lower v c all u l));
        same_read = λ j u f z. absurd (epoch-ne-shared s j u i f (sym z));
        same_write = tr.same_write;
      }
