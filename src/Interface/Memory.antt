-- ===== src/Interface/Memory.antt =====
-- The memory callbacks on a running system: they report what the reference detector reports.
use embed_sanitizer.Common.{
  some-inj, ℕ, ◌+◌, ◌≡◌, ◌≢◌, ◌∙◌, refl, sym, Bool, true, false, ◌||◌, inl, inr, some, none,
  Option-cases, List, [], lookup, insert, lookup-insert_self, lookup-insert_other, arith, ok,
  Returns, ◌==◌, if◌then◌else◌, eqb_refl,
}
use embed_sanitizer.Clock.{VectorClock, shl24, u32}
use embed_sanitizer.State.{ThreadState, VarState, State, get_var_state}
use embed_sanitizer.FastTrack.{ft_read, ft_write}
use embed_sanitizer.Detector.{
  View, of_thread, of_lock, IsSystem, Tracks, History, all_known, read_races, write_races, add_read,
  add_write,
}
use embed_sanitizer.Detector.Read.{ft_read-Exact}
use embed_sanitizer.Detector.Write.{ft_write-Exact}
use embed_sanitizer.Detector.Advance.{Derived, copy, Advance-Tracks}
use embed_sanitizer.Detector.Settle.{Grown-refl}
use embed_sanitizer.Detector.First.{first_read-Tracks, first_write-Tracks}
use embed_sanitizer.Interface.{read_state, write_state}
use embed_sanitizer.Interface.Synced.{get_state-found}

pub get_var_state-found :
    (addr : ℕ) (is_write : Bool) (self : ℕ) (s : State) (x : VarState)
    → lookup addr s.vstates ≡ some x
    → get_var_state addr is_write self s ≡ ok (x, s)
get_var_state-found addr is_write self s x f = unfold get_var_state in rw (f, get_var_state)

-- The entry that `getVarState` makes.
pub get_var_state-new :
    (addr : ℕ) (is_write : Bool) (self : ℕ) (s : State) (t : ThreadState)
    → lookup self s.threads ≡ some t
    → lookup addr s.vstates ≡ none
    → let x : VarState = record {
      w = if is_write then t.epoch else shl24 t.tid;
      r = if is_write then shl24 t.tid else t.epoch;
      rvc = [];
      racy = false;
    } in
      get_var_state addr is_write self s ≡ ok (x, record s { vstates = insert addr x s.vstates })
get_var_state-new addr is_write self s t e f =
    unfold get_var_state in rw (f, get_state-found self s t e, get_var_state)

-- An access in the epoch of the last one.
ft_read-again :
    (n reads : ℕ) (x : VarState) (t : ThreadState)
    → x.racy ≡ false
    → (x.r == t.epoch) ≡ true
    → ft_read n reads x t ≡ ok (record { is_racy = false; var = x; count = u32 (reads + 1) })
unfolding ft_read
ft_read-again n reads x t calm same =
    rw (let go : (x.racy || (x.r == t.epoch)) ≡ true = ground (arith, calm, same) in go)

ft_write-again :
    (writes : ℕ) (x : VarState) (t : ThreadState)
    → x.racy ≡ false
    → (x.w == t.epoch) ≡ true
    → ft_write writes x t ≡ ok (record { is_racy = false; var = x; count = u32 (writes + 1) })
unfolding ft_write
ft_write-again writes x t calm same =
    rw (let go : (x.racy || (x.w == t.epoch)) ≡ true = ground (arith, calm, same) in go)

-- Nothing was accessed yet.
abbrev pub no_accesses : History
no_accesses = record { reads = []; writes = [] }

no_read_race : (c : VectorClock) → false ≡ read_races c no_accesses
unfolding read_races all_known
no_read_race c = refl

no_write_race : (c : VectorClock) → false ≡ write_races c no_accesses
unfolding write_races all_known
no_write_race c = refl

-- What the table says of an address stands for its history: an address without an entry for none.
pub record Remembers (s : State) (addr : ℕ) (h : History) : Type 0 where
  pub fresh : lookup addr s.vstates ≡ none → h ≡ no_accesses
  pub kept : (x : VarState) → lookup addr s.vstates ≡ some x → Tracks s x h

-- The state `s` with other variables and counters.
abbrev pub touched : State → List (ℕ × VarState) → ℕ → ℕ → ℕ → State
touched s m r w c = record s { vstates = m; reads = r; writes = w; is_concurrent = c }

touched-View :
    (s : State) (m : List (ℕ × VarState)) (r w c : ℕ) (v : VectorClock)
    → View (touched s m r w c) v
    → Derived s v
touched-View s m r w c v (of_thread k t e q) = copy v (of_thread k t e q) (λ _. refl)
touched-View s m r w c v (of_lock k e) = copy v (of_lock k e) (λ _. refl)

pub touched-IsSystem :
    (s : State) (m : List (ℕ × VarState)) (r w c : ℕ) → IsSystem s → IsSystem (touched s m r w c)
touched-IsSystem s m r w c i = record {
  few = i.few;
  thread = i.thread;
  wide = i.wide;
  started = i.started;
  lock = i.lock;
  unique = i.unique;
  behind = i.behind;
  behind_lock = i.behind_lock;
}

pub touched-Tracks :
    (s : State) (m : List (ℕ × VarState)) (r w c : ℕ) (x : VarState) (h : History)
    → IsSystem s
    → Tracks s x h
    → Tracks (touched s m r w c) x h
touched-Tracks s m r w c x h i tr =
    Advance-Tracks s (touched s m r w c) x h i.few
      (record {
        num = refl;
        thread = λ k t e. (t, e, Grown-refl t (i.thread k t e));
        view = touched-View s m r w c;
      })
      tr

-- What a callback for a memory access does: it answers as the reference does, and afterwards the
-- table remembers the access if it did not race, and all that it remembered of other addresses.
pub record Answers (addr : ℕ) (s : State) (answer : Bool) (h : History) (r : Bool × State)
    : Type 0 where
  pub exact : r.0 ≡ answer
  pub system : IsSystem r.1
  pub threads : r.1.threads ≡ s.threads
  pub locks : r.1.locks ≡ s.locks
  pub concurrent : r.1.is_concurrent ≡ s.is_concurrent
  pub remembers : answer ≡ false → Remembers r.1 addr h
  pub others : (j : ℕ) (g : History) → addr ≢ j → Remembers s j g → Remembers r.1 j g

-- The stored result of an access.
stored :
    (addr : ℕ) (s : State) (y : VarState) (m : List (ℕ × VarState)) (r w : ℕ) (answer a : Bool)
    (h : History)
    → IsSystem s
    → ((j : ℕ) → addr ≢ j → lookup j m ≡ lookup j s.vstates)
    → a ≡ answer
    → (answer ≡ false → Tracks s y h)
    → Answers addr s answer h (a, touched s (insert addr y m) r w s.is_concurrent)
stored addr s y m r w answer a h i same q keep = record {
  exact = q;
  system = touched-IsSystem s _ r w s.is_concurrent i;
  threads = refl;
  locks = refl;
  concurrent = refl;
  remembers = λ z. record {
    fresh = λ l. let l' = sym (lookup-insert_self addr y m) ∙ l in cc;
    kept = λ x l.
        let is_y : y ≡ x = some-inj (sym (lookup-insert_self addr y m) ∙ l) in
        rw (sym is_y) (touched-Tracks s _ r w s.is_concurrent y h i (keep z));
  };
  others = λ j g ne old.
      let back = lookup-insert_other addr j y m ne ∙ same j ne in
      record {
        fresh = λ l. old.fresh (sym back ∙ l);
        kept = λ x l. touched-Tracks s _ r w s.is_concurrent x g i (old.kept x (sym back ∙ l));
      };
}

module _ (addr self : ℕ) (s : State) (t : ThreadState) (h : History) (i : IsSystem s)
    (e : lookup self s.threads ≡ some t) (mem : Remembers s addr h) where
  -- The variable that `getVarState` finds or makes.
  pub read_state-Answers :
      Returns (read_state addr self s) (Answers addr s (read_races t.c h) (add_read t.epoch h))
  unfolding read_state
  read_state-Answers = elim (Option-cases (lookup addr s.vstates)) [
    | inr (x, f) ↦
        let (a, run, ex) = ft_read-Exact s self t i e x h (mem.kept x f) s.reads in
        (
          (a.is_racy, record s { reads = a.count; vstates = insert addr a.var s.vstates }),
          rw (get_var_state-found addr false self s x f, get_state-found self s t e, run),
          stored addr s a.var s.vstates a.count s.writes _ _ _ i (λ j ne. refl) ex.exact ex.tracks,
        )
    | inl f ↦
        let z = mem.fresh f in
        let x : VarState = record { w = shl24 t.tid; r = t.epoch; rvc = []; racy = false } in
        let m = insert addr x s.vstates in
        (
          (false, record s { reads = u32 (s.reads + 1); vstates = insert addr x m }),
          rw (
            get_var_state-new addr false self s t e f,
            get_state-found self (record s { vstates = m }) t e,
            ft_read-again s.num_threads s.reads x t refl (eqb_refl t.epoch),
          ),
          stored addr s x m (u32 (s.reads + 1)) s.writes _ _ _ i
              (λ j ne. lookup-insert_other addr j x s.vstates ne) (rw z (no_read_race t.c))
              (λ _. rw z (unfold add_read in first_read-Tracks s self t i e)),
        )
  ]

  pub write_state-Answers :
      Returns
        (write_state true addr self s)
        (Answers addr s (write_races t.c h) (add_write t.epoch h))
  unfolding write_state
  write_state-Answers = elim (Option-cases (lookup addr s.vstates)) [
    | inr (x, f) ↦
        let (a, run, ex) = ft_write-Exact s self t i e x h (mem.kept x f) s.writes in
        (
          (a.is_racy, record s { writes = a.count; vstates = insert addr a.var s.vstates }),
          rw (get_var_state-found addr true self s x f, get_state-found self s t e, run),
          stored addr s a.var s.vstates s.reads a.count _ _ _ i (λ j ne. refl) ex.exact ex.tracks,
        )
    | inl f ↦
        let z = mem.fresh f in
        let x : VarState = record { w = t.epoch; r = shl24 t.tid; rvc = []; racy = false } in
        let m = insert addr x s.vstates in
        (
          (false, record s { writes = u32 (s.writes + 1); vstates = insert addr x m }),
          rw (
            get_var_state-new addr true self s t e f,
            get_state-found self (record s { vstates = m }) t e,
            ft_write-again s.writes x t refl (eqb_refl t.epoch),
          ),
          stored addr s x m s.reads (u32 (s.writes + 1)) _ _ _ i
              (λ j ne. lookup-insert_other addr j x s.vstates ne) (rw z (no_write_race t.c))
              (λ _. rw z (unfold add_write in first_write-Tracks s self t i e)),
        )
  ]
