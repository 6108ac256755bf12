-- ===== src/Detector/Exclusive.antt =====
-- The branches of `ft_read` that keep one read epoch: the invariant is kept.
use embed_sanitizer.Common.{ℕ, ◌≡◌, ◌≢◌, ◌∙◌, refl, sym, some, lookup}
use embed_sanitizer.Clock.{read_shared}
use embed_sanitizer.State.{ThreadState, VarState, State}
use embed_sanitizer.Detector.{
  Knows, add_read, Each, IsSystem, Implies, shared, exclusive, Covered, by_write, by_read, Tracks,
  History,
}
use embed_sanitizer.Detector.Check.{Each-map}
use embed_sanitizer.Detector.Own.{
  epoch-IsStamp, epoch-ne-shared, own-View, epoch-Knows, alone, epoch-Implies, epoch-Owned,
}

module _ (s : State) (k : ℕ) (t : ThreadState) (i : IsSystem s) (e : lookup k s.threads ≡ some t)
    (x : VarState) (h : History) (tr : Tracks s x h) where
  -- A thread in the epoch of the last write knows an access by a thread that knows that write.
  pub write_epoch_known :
      Knows t.c x.w
      → (j : ℕ) (u : ThreadState) → lookup j s.threads ≡ some u
      → x.w ≡ u.epoch
      → Knows u.c t.epoch
  write_epoch_known q j u f same =
      let q' : Knows t.c u.epoch = rw (sym same) q in
      rw (sym (alone s j u i f t.c (own-View s k t i e) q')) (epoch-Knows s k t i e)

  same_epoch_known :
      (j : ℕ) (u : ThreadState) → lookup j s.threads ≡ some u → t.epoch ≡ u.epoch → t.c ≡ u.c
  same_epoch_known j u f same =
      alone s j u i f t.c (own-View s k t i e) (rw (sym same) (epoch-Knows s k t i e))

  pub self : Implies s t.epoch t.epoch
  self = epoch-Implies s k t i e t.epoch (epoch-Knows s k t i e)

  -- In its own epoch the thread has read already.
  pub same_epoch-Tracks : x.r ≡ t.epoch → Knows t.c x.w → Tracks s x (add_read t.epoch h)
  unfolding add_read
  same_epoch-Tracks same q =
      let ne : x.r ≢ read_shared = λ z. epoch-ne-shared s k t i e (sym same ∙ z) in
      record {
        calm = tr.calm;
        w_stamp = tr.w_stamp;
        r_stamp = tr.r_stamp;
        rvc_epochs = tr.rvc_epochs;
        rvc_size = tr.rvc_size;
        rvc_shared = tr.rvc_shared;
        w_owned = tr.w_owned;
        r_owned = tr.r_owned;
        rvc_owned = tr.rvc_owned;
        w_upper = tr.w_upper;
        r_upper = (by_read x.r (exclusive ne refl) (rw same self), tr.r_upper);
        w_lower = tr.w_lower;
        r_lower = λ v c all. tr.r_lower v c all.1;
        rvc_lower = λ v c all. tr.rvc_lower v c all.1;
        same_read = tr.same_read;
        same_write = λ j u f z.
            let old = tr.same_write j u f z in (old.0, (write_epoch_known q j u f z, old.1));
      }

  pub writes_known : Knows t.c x.w → Each (Knows t.c) h.writes
  writes_known q =
      Each-map (Implies s x.w) (Knows t.c) h.writes (λ a f. f.1 t.c (own-View s k t i e) q)
        tr.w_upper

  exclusive-Covered :
      x.r ≢ read_shared
      → Knows t.c x.r
      → (a : ℕ) → Covered s x a
      → Covered s (record x { r = t.epoch }) a
  exclusive-Covered ne known a (by_write f) = by_write f
  exclusive-Covered ne known a (by_read b (shared u l z q) f) = absurd (ne z)
  exclusive-Covered ne known a (by_read b (exclusive z q) f) =
      by_read t.epoch (exclusive (epoch-ne-shared s k t i e) refl)
        (epoch-Implies s k t i e a (f.1 t.c (own-View s k t i e) (rw q known)))

  -- The branch "Exclusive": the thread knows the last read.
  pub exclusive-Tracks :
      x.r ≢ read_shared
      → Knows t.c x.r
      → Knows t.c x.w
      → Tracks s (record x { r = t.epoch }) (add_read t.epoch h)
  unfolding add_read
  exclusive-Tracks ne known q =
      let ne' : t.epoch ≢ read_shared = epoch-ne-shared s k t i e in
      record {
        calm = tr.calm;
        w_stamp = tr.w_stamp;
        r_stamp = λ _. epoch-IsStamp s k t i e;
        rvc_epochs = tr.rvc_epochs;
        rvc_size = tr.rvc_size;
        rvc_shared = λ z. absurd (ne' z);
        w_owned = tr.w_owned;
        r_owned = λ _. epoch-Owned s k t i e;
        rvc_owned = tr.rvc_owned;
        w_upper = tr.w_upper;
        r_upper = (
          by_read t.epoch (exclusive ne' refl) self,
          Each-map (Covered s x) (Covered s (record x { r = t.epoch })) h.reads
              (exclusive-Covered ne known) tr.r_upper,
        );
        w_lower = tr.w_lower;
        r_lower = λ v c all _. all.0;
        rvc_lower = λ v c all. tr.rvc_lower v c all.1;
        same_read = λ j u f z. rw (sym (same_epoch_known j u f z)) (writes_known q);
        same_write = λ j u f z.
            let old = tr.same_write j u f z in (old.0, (write_epoch_known q j u f z, old.1));
      }
