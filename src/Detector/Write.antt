-- ===== src/Detector/Write.antt =====
-- `ft_write` against the reference.
use mathlib.Core.Path.{subst}
use embed_sanitizer.Common.{
  ℕ, ◌+◌, ◌≡◌, ◌↔◌, ◌∙◌, refl, sym, not, Bool, true, false, some, ◌∷◌, ◌&&◌, ◌||◌, Returns, lookup,
  arith, Bool-cases, ◌==◌, inl, inr, eqb→eq,
}
use embed_sanitizer.Clock.{u32}
use embed_sanitizer.State.{ThreadState, VarState, State}
use embed_sanitizer.FastTrack.{ft_write}
use embed_sanitizer.Detector.{
  knows, Knows, all_known, write_races, add_write, Each, IsSystem, Implies, Covered, by_write,
  Tracks, History,
}
use embed_sanitizer.Detector.Check.{is_after-knows, Each-all_known, all_known-Each, Each-map}
use embed_sanitizer.Detector.Own.{
  epoch-IsStamp, own-View, epoch-Knows, alone, epoch-Implies, epoch-Owned,
}
use embed_sanitizer.Detector.Exclusive.{writes_known, self}
use embed_sanitizer.Detector.Read.{Exact}
use embed_sanitizer.Detector.Kept.{
  AllRecorded, next_read, check_reads-ok, Covered-known, recorded_lower, next_read-facts,
}

Bool-eq : (a b : Bool) → (a ≡ false) ↔ (b ≡ false) → a ≡ b
Bool-eq true true f = refl
Bool-eq true false f = f.1 refl
Bool-eq false b f = sym (f.0 refl)

module _ (s : State) (k : ℕ) (t : ThreadState) (i : IsSystem s) (e : lookup k s.threads ≡ some t)
    (x : VarState) (h : History) (tr : Tracks s x h) where
  -- After a write that knows all earlier accesses the variable stands for these and the write.
  write-Tracks :
      Knows t.c x.w
      → AllRecorded t.c x
      → Tracks s (record x { r = next_read s k t i e x h tr; w = t.epoch }) (add_write t.epoch h)
  unfolding add_write
  write-Tracks q all =
      let n = next_read-facts s k t i e x h tr in
      let known = n.3 all in
      let reads =
        Each-map (Covered s x) (Knows t.c) h.reads (Covered-known s k t i e x h tr q all)
          tr.r_upper in
      let writes = writes_known s k t i e x h tr q in
      let mine = epoch-Knows s k t i e in
      let spread = epoch-Implies s k t i e in
      record {
        calm = tr.calm;
        w_stamp = epoch-IsStamp s k t i e;
        r_stamp = λ _. n.1;
        rvc_epochs = tr.rvc_epochs;
        rvc_size = tr.rvc_size;
        rvc_shared = λ z. absurd (n.0 z);
        w_owned = epoch-Owned s k t i e;
        r_owned = λ _. n.2;
        rvc_owned = tr.rvc_owned;
        w_upper =
            (spread t.epoch mine, Each-map (Knows t.c) (Implies s t.epoch) h.writes spread writes);
        r_upper =
            Each-map (Knows t.c)
              (Covered s (record x { r = next_read s k t i e x h tr; w = t.epoch })) h.reads
              (λ a z. by_write (spread a z)) reads;
        w_lower = λ v c w. w.0;
        r_lower = λ v c w _. n.4 v c w;
        rvc_lower = tr.rvc_lower;
        same_read = λ j u f z.
            let same = alone s j u i f t.c (own-View s k t i e) (rw (sym z) known) in
            subst (λ c. Each (Knows c) (t.epoch ∷ h.writes)) same (mine, writes);
        same_write = λ j u f z.
            let same = alone s j u i f t.c (own-View s k t i e) (rw (sym z) mine) in
            subst (λ c. Each (Knows c) (t.epoch ∷ h.writes) × Each (Knows c) h.reads) same
              ((mine, writes), reads);
      }

  -- In the epoch of the last write nothing changes.
  same_write-Tracks : x.w ≡ t.epoch → Tracks s x (add_write t.epoch h)
  unfolding add_write
  same_write-Tracks same =
      let all = tr.same_write k t e same in
      record {
        calm = tr.calm;
        w_stamp = tr.w_stamp;
        r_stamp = tr.r_stamp;
        rvc_epochs = tr.rvc_epochs;
        rvc_size = tr.rvc_size;
        rvc_shared = tr.rvc_shared;
        w_owned = tr.w_owned;
        r_owned = tr.r_owned;
        rvc_owned = tr.rvc_owned;
        w_upper = (rw same (self s k t i e x h tr), tr.w_upper);
        r_upper = tr.r_upper;
        w_lower = λ v c w. tr.w_lower v c w.1;
        r_lower = tr.r_lower;
        rvc_lower = tr.rvc_lower;
        same_read = λ j u f z.
            let old = tr.same_read j u f z in
            (rw (sym same) (tr.w_lower u.c (i.thread j u f).clocks old), old);
        same_write = λ j u f z.
            let here =
              alone s j u i f t.c (own-View s k t i e)
                (rw (sym (sym same ∙ z)) (epoch-Knows s k t i e)) in
            let old = tr.same_write j u f z in
            ((rw (sym here) (epoch-Knows s k t i e), old.0), old.1);
      }

  -- What the variable keeps is known if and only if the whole history is.
  history_known :
      Knows t.c x.w → AllRecorded t.c x → (all_known t.c h.writes && all_known t.c h.reads) ≡ true
  history_known q all =
      let reads =
        Each-map (Covered s x) (Knows t.c) h.reads (Covered-known s k t i e x h tr q all)
          tr.r_upper in
      rw (
        Each-all_known t.c h.writes (writes_known s k t i e x h tr q),
        Each-all_known t.c h.reads reads,
      )

  known_history :
      (all_known t.c h.writes && all_known t.c h.reads) ≡ true → Knows t.c x.w × AllRecorded t.c x
  known_history z =
      let w : all_known t.c h.writes ≡ true = ground arith in
      let r : all_known t.c h.reads ≡ true = ground arith in
      (
        tr.w_lower t.c (i.thread k t e).clocks (all_known-Each t.c h.writes w),
        recorded_lower s k t i e x h tr (all_known-Each t.c h.reads r),
      )

  -- For a variable that stands for a history, `ft_write` does not fault, counts the write, and
  -- answers whether some access of the history did not happen before it; if none, the variable that
  -- it leaves stands for the history with the write.
  pub ft_write-Exact :
      (writes : ℕ)
      → Returns (ft_write writes x t) (Exact s (write_races t.c h) (add_write t.epoch h) writes)
  unfolding ft_write write_races
  ft_write-Exact writes = elim (Bool-cases (x.w == t.epoch)) [
    | inl same ↦
        let same' = eqb→eq x.w t.epoch same in
        let all = tr.same_write k t e same' in
        let w = Each-all_known t.c h.writes all.0 in
        let r = Each-all_known t.c h.reads all.1 in
        (
          record { is_racy = false; var = x; count = u32 (writes + 1) },
          rw (let go : (x.racy || (x.w == t.epoch)) ≡ true = ground (arith, tr.calm, same) in go),
          record { exact = rw (w, r); counted = refl; tracks = λ _. same_write-Tracks same' },
        )
    | inr other ↦
        let w =
          is_after-knows t s.num_threads x.w (i.thread k t e) ((i.wide k t e).1) tr.w_stamp
            (tr.w_owned k t e) in
        let (r, run, (next, both)) = check_reads-ok s k t i e x h tr (not (knows t.c x.w)) in
        let answer : r.0 ≡ not (all_known t.c h.writes && all_known t.c h.reads) =
          Bool-eq r.0 (not (all_known t.c h.writes && all_known t.c h.reads)) (
            (λ z. let c = both.0 z in rw (history_known (ground (arith, c.0)) c.1)),
            λ z. let c = known_history (ground (arith, z)) in both.1 (ground (arith, c.0), c.1),
          ) in
        (
          record {
            is_racy = r.0;
            var = record x { r = r.1; w = t.epoch };
            count = u32 (writes + 1);
          },
          rw (
            (let go : (x.racy || (x.w == t.epoch)) ≡ false = ground (arith, tr.calm, other) in go),
            w,
            run,
          ),
          record {
            exact = answer;
            counted = refl;
            tracks = λ z.
                let c = both.0 (answer ∙ z) in rw next (write-Tracks (ground (arith, c.0)) c.1);
          },
        )
  ]
