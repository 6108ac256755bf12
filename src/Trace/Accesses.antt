-- ===== src/Trace/Accesses.antt =====
-- One read or write: its callback reports what the world says of it, and the knowledge stays the same.
use mathlib.Core.Path.{subst}
use embed_sanitizer.Common.{
  ℕ, suc, ◌<◌, ◌≡◌, ◌≢◌, ◌∙◌, refl, sym, Bool, true, false, Bool-cases, inl, inr, some, List, ◌∷◌,
  map, lookup, arith, ◌==◌, if◌then◌else◌, eqb→eq, eqb→ne, eqb_refl, Returns,
}
use embed_sanitizer.State.{ThreadState, State}
use embed_sanitizer.Report.{RaceSet}
use embed_sanitizer.Detector.{History, Each, read_races, write_races, add_read, add_write}
use embed_sanitizer.Interface.{Runtime, tsan_read, tsan_write}
use embed_sanitizer.Interface.Memory.{Remembers, Answers}
use embed_sanitizer.Interface.Callback.{tsan_read-Reported, tsan_write-Reported}
use embed_sanitizer.Trace.{
  Place, Action, read, write, act, World, races, at_key, accessed, happen, report_of,
}
use embed_sanitizer.Trace.Linked.{Linked, history, all_in-all_known}
use embed_sanitizer.Trace.Accessed.{stamp_next, map-old, map-new, weaken, accessed-Linked}
use embed_sanitizer.Trace.Paced.{same-Paced}
use embed_sanitizer.Trace.Steps.{Stepped}

-- What an action leaves: the report if it races, and else the knowledge of the world.
pub record Exact (set : RaceSet) (self : ℕ) (action : Action) (w : World) (r r' : Runtime)
    : Type 0 where
  pub reports :
      r'.reports ≡ (if races self action w then report_of set self action r.reports else r.reports)
  pub step : races self action w ≡ false → Stepped r r' (happen self action w)

Each-at_key :
    (addr n : ℕ) (l : List ℕ) (m : ℕ → List ℕ)
    → Each (λ a. a < n) l
    → ((j : ℕ) → Each (λ a. a < n) (m j))
    → (j : ℕ) → Each (λ a. a < n) (at_key addr l m j)
Each-at_key addr n l m h hs j = elim (Bool-cases (addr == j)) [
  | inl y ↦ rw y h
  | inr y ↦ rw y (hs j)
]

module _ (set : RaceSet) (r : Runtime) (w : World) (stamp : ℕ → ℕ) (self addr : ℕ) (p : Place)
    (t : ThreadState) (li : Linked r.state w stamp) (f : lookup self r.state.threads ≡ some t) where
  abbrev stamp' : ℕ → ℕ
  stamp' = stamp_next r.state w stamp self t li f

  -- The callback remembers what the world with the access holds.
  remembered :
      (s' : State) (rs ws : ℕ → List ℕ) (h : History) (b : Bool)
      → Answers addr r.state false h (b, s')
      → h ≡ record { reads = map stamp' (rs addr); writes = map stamp' (ws addr) }
      → ((j : ℕ)
          → addr ≢ j
          → history stamp w j ≡ record { reads = map stamp' (rs j); writes = map stamp' (ws j) })
      → (j : ℕ) → Remembers s' j (record { reads = map stamp' (rs j); writes = map stamp' (ws j) })
  remembered s' rs ws h b ans here there j = elim (Bool-cases (addr == j)) [
    | inl same ↦
        subst
          (λ k. Remembers s' k (record { reads = map stamp' (rs k); writes = map stamp' (ws k) }))
          (eqb→eq addr j same) (subst (Remembers s' addr) here (ans.remembers refl))
    | inr other ↦
        let ne = eqb→ne addr j other in
        subst (Remembers s' j) (there j ne) (ans.others j (history stamp w j) ne (li.remembers j))
  ]

  old_history :
      (j : ℕ)
      → history stamp w j
        ≡ record { reads = map stamp' (w.reads j); writes = map stamp' (w.writes j) }
  old_history j =
      rw
        (
          map-old r.state w stamp self t li f (w.reads j) (li.past_reads j),
          map-old r.state w stamp self t li f (w.writes j) (li.past_writes j),
        )
        refl

  access_Stepped :
      (r' : Runtime) (rs ws : ℕ → List ℕ) (h : History) (b : Bool)
      → Answers addr r.state false h (b, r'.state)
      → r'.reports ≡ r.reports
      → ((j : ℕ) → Each (λ a. a < suc w.next) (rs j))
      → ((j : ℕ) → Each (λ a. a < suc w.next) (ws j))
      → h ≡ record { reads = map stamp' (rs addr); writes = map stamp' (ws addr) }
      → ((j : ℕ)
          → addr ≢ j
          → history stamp w j ≡ record { reads = map stamp' (rs j); writes = map stamp' (ws j) })
      → Stepped r r' (record (accessed self w) { reads = rs; writes = ws })
  access_Stepped r' rs ws h b ans rep pr pw here there = record {
    stamp = stamp';
    linked =
        accessed-Linked r.state w stamp self t li f r'.state rs ws ans.system ans.threads ans.locks
          ans.concurrent pr pw (remembered r'.state rs ws h b ans here there);
    paced = same-Paced r.state r'.state ans.threads;
    reports = rep;
  }

  abbrev reads' : ℕ → List ℕ
  reads' = at_key addr (w.next ∷ w.reads addr) w.reads

  abbrev writes' : ℕ → List ℕ
  writes' = at_key addr (w.next ∷ w.writes addr) w.writes

  weaker :
      (m : ℕ → List ℕ)
      → ((j : ℕ) → Each (λ a. a < w.next) (m j))
      → (j : ℕ) → Each (λ a. a < suc w.next) (m j)
  weaker m h j = weaken r.state w stamp self t li f (m j) (h j)

  read_Stepped :
      (r' : Runtime) (b : Bool)
      → Answers addr r.state false (add_read t.epoch (history stamp w addr)) (b, r'.state)
      → r'.reports ≡ r.reports
      → Stepped r r' (record (accessed self w) { reads = reads' })
  unfolding add_read
  read_Stepped r' b ans rep =
      access_Stepped r' reads' w.writes _ b ans rep
        (Each-at_key addr (suc w.next) (w.next ∷ w.reads addr) w.reads
          (omega arith, weaker w.reads li.past_reads addr) (weaker w.reads li.past_reads))
        (weaker w.writes li.past_writes)
        (rw
          (
            eqb_refl addr,
            map-new r.state w stamp self t li f (w.reads addr) (li.past_reads addr),
            map-old r.state w stamp self t li f (w.writes addr) (li.past_writes addr),
          )
          refl)
        (λ j ne. let q : (addr == j) ≡ false = ground arith in rw q (old_history j))

  write_Stepped :
      (r' : Runtime) (b : Bool)
      → Answers addr r.state false (add_write t.epoch (history stamp w addr)) (b, r'.state)
      → r'.reports ≡ r.reports
      → Stepped r r' (record (accessed self w) { writes = writes' })
  unfolding add_write
  write_Stepped r' b ans rep =
      access_Stepped r' w.reads writes' _ b ans rep (weaker w.reads li.past_reads)
        (Each-at_key addr (suc w.next) (w.next ∷ w.writes addr) w.writes
          (omega arith, weaker w.writes li.past_writes addr) (weaker w.writes li.past_writes))
        (rw
          (
            eqb_refl addr,
            map-new r.state w stamp self t li f (w.writes addr) (li.past_writes addr),
            map-old r.state w stamp self t li f (w.reads addr) (li.past_reads addr),
          )
          refl)
        (λ j ne. let q : (addr == j) ≡ false = ground arith in rw q (old_history j))

  -- The code's test and the world's.
  read_same :
      (w.running == 0) ≡ false → races self (read addr p) w ≡ read_races t.c (history stamp w addr)
  unfolding races read_races
  read_same several =
      rw
        (
          several,
          all_in-all_known r.state w stamp self t (w.writes addr) li f (li.past_writes addr),
        )
        refl

  write_same :
      (w.running == 0) ≡ false
      → races self (write addr p) w ≡ write_races t.c (history stamp w addr)
  unfolding races write_races
  write_same several =
      rw
        (
          several,
          all_in-all_known r.state w stamp self t (w.writes addr) li f (li.past_writes addr),
          all_in-all_known r.state w stamp self t (w.reads addr) li f (li.past_reads addr),
        )
        refl

  still : Stepped r r w
  still = record {
    stamp = stamp;
    linked = li;
    paced = same-Paced r.state r.state refl;
    reports = refl;
  }

  pub read-Exact : Returns (act set self (read addr p) r) (Exact set self (read addr p) w r)
  unfolding act happen report_of
  read-Exact = elim (Bool-cases (w.running == 0)) [
    | inl alone ↦
        let here : (r.state.is_concurrent == 0) ≡ true = rw (sym li.running) alone in
        let quiet : races self (read addr p) w ≡ false = unfold races in rw alone refl in
        (
          r,
          unfold tsan_read in rw here refl,
          record { reports = rw quiet refl; step = λ h. rw alone still },
        )
    | inr several ↦
        let here : (r.state.is_concurrent == 0) ≡ false = rw (sym li.running) several in
        let (r', run, rep) =
          tsan_read-Reported set addr p.line_no p.obj_name p.file_name self r t
            (history stamp w addr) here li.system f (li.remembers addr) in
        let same = read_same several in
        (
          r',
          run,
          record {
            reports = rw same rep.reports;
            step = λ h.
                let q : read_races t.c (history stamp w addr) ≡ false = sym same ∙ h in
                rw several (read_Stepped r' _ (rw q at rep.answers) (rep.reports ∙ rw q refl));
          },
        )
  ]

  pub write-Exact : Returns (act set self (write addr p) r) (Exact set self (write addr p) w r)
  unfolding act happen report_of
  write-Exact = elim (Bool-cases (w.running == 0)) [
    | inl alone ↦
        let here : (r.state.is_concurrent == 0) ≡ true = rw (sym li.running) alone in
        let quiet : races self (write addr p) w ≡ false = unfold races in rw alone refl in
        (
          r,
          unfold tsan_write in rw here refl,
          record { reports = rw quiet refl; step = λ h. rw alone still },
        )
    | inr several ↦
        let here : (r.state.is_concurrent == 0) ≡ false = rw (sym li.running) several in
        let (r', run, rep) =
          tsan_write-Reported set addr p.line_no p.obj_name p.file_name self r t
            (history stamp w addr) here li.system f (li.remembers addr) in
        let same = write_same several in
        (
          r',
          run,
          record {
            reports = rw same rep.reports;
            step = λ h.
                let q : write_races t.c (history stamp w addr) ≡ false = sym same ∙ h in
                rw several (write_Stepped r' _ (rw q at rep.answers) (rep.reports ∙ rw q refl));
          },
        )
  ]
