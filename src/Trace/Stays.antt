-- ===== src/Trace/Stays.antt =====
-- Accesses of any kind keep the system well formed, whether they race or not.
use embed_sanitizer.Common.{
  ℕ, ◌≡◌, ◌≢◌, ◌∙◌, refl, sym, ap, true, false, inl, inr, some, Option-cases, List, [], lookup,
  insert, lookup-insert_cases, arith, Returns,
}
use mathlib.Core.Path.{subst}
use embed_sanitizer.Clock.{tid_of, shl24, read_shared}
use embed_sanitizer.State.{ThreadState, VarState, State}
use embed_sanitizer.Detector.{IsSystem}
use embed_sanitizer.Detector.Bounded.{Bounded, ft_read-Bounded, ft_write-Bounded}
use embed_sanitizer.Detector.Own.{tid_of-epoch, epoch-ne-shared}
use embed_sanitizer.Interface.{read_state, write_state}
use embed_sanitizer.Interface.Memory.{touched-IsSystem, get_var_state-found, get_var_state-new}
use embed_sanitizer.Interface.Synced.{Synced, get_state-found}
use embed_sanitizer.Trace.Paced.{Paced, same-Paced, Synced-Paced}

-- All that keeps callbacks from faulting.
pub record Sound (s : State) : Type 0 where
  pub system : IsSystem s
  pub bounded : (addr : ℕ) (x : VarState) → lookup addr s.vstates ≡ some x → Bounded s.num_threads x

pub record Stays (s s' : State) : Type 0 where
  pub sound : Sound s'
  pub paced : Paced s s'

module _ (addr self : ℕ) (s : State) (t : ThreadState) (so : Sound s)
    (f : lookup self s.threads ≡ some t) where
  insert-Stays :
      (x : VarState) (m : List (ℕ × VarState)) (r w : ℕ)
      → Bounded s.num_threads x
      → ((j : ℕ) (y : VarState) → lookup j m ≡ some y → Bounded s.num_threads y)
      → Stays s (record s { vstates = insert addr x m; reads = r; writes = w })
  insert-Stays x m r w b old = record {
    sound = record {
      system = touched-IsSystem s (insert addr x m) r w s.is_concurrent so.system;
      bounded = λ j y e. elim (lookup-insert_cases addr j x y m e) [
        | inl (same, q) ↦ subst (Bounded s.num_threads) q b
        | inr (other, q) ↦ old j y q
      ];
    };
    paced = same-Paced s _ refl;
  }

  fresh-Bounded :
      (w r : ℕ)
      → tid_of w ≡ t.tid
      → tid_of r ≡ t.tid
      → r ≢ read_shared
      → Bounded s.num_threads (record { w = w; r = r; rvc = []; racy = false })
  fresh-Bounded w r p q ne =
      let l = (so.system.wide self t f).0 in
      record {
        write = omega (arith, p, l);
        read = λ _. omega (arith, q, l);
        size = inl refl;
        shared = λ z. absurd (ne z);
      }

  unshared_zero : shl24 t.tid ≢ read_shared
  unshared_zero = omega arith

  tid_of-zero : tid_of (shl24 t.tid) ≡ t.tid
  tid_of-zero = let l = so.system.wide self t f in omega (arith, l.0, so.system.few)

  pub read_state-Stays : Returns (read_state addr self s) (λ r. Stays s r.1)
  unfolding read_state
  read_state-Stays =
      let i = so.system in
      let (lt, wide) = i.wide self t f in
      let own = tid_of-epoch s self t i f in
      let ne = epoch-ne-shared s self t i f in
      elim (Option-cases (lookup addr s.vstates)) [
        | inr (x, g) ↦
            let (a, go, b) =
              ft_read-Bounded s.num_threads x t (so.bounded addr x g) i.few lt wide own ne
                s.reads in
            (
              (a.is_racy, record s { reads = a.count; vstates = insert addr a.var s.vstates }),
              rw (get_var_state-found addr false self s x g, get_state-found self s t f, go),
              insert-Stays a.var s.vstates a.count s.writes b so.bounded,
            )
        | inl g ↦
            let x : VarState = record { w = shl24 t.tid; r = t.epoch; rvc = []; racy = false } in
            let m = insert addr x s.vstates in
            let bx = fresh-Bounded (shl24 t.tid) t.epoch tid_of-zero own ne in
            let (a, go, b) = ft_read-Bounded s.num_threads x t bx i.few lt wide own ne s.reads in
            (
              (a.is_racy, record s { reads = a.count; vstates = insert addr a.var m }),
              rw (
                get_var_state-new addr false self s t f g,
                get_state-found self (record s { vstates = m }) t f,
                go,
              ),
              insert-Stays a.var m a.count s.writes b
                  (insert-Stays x s.vstates s.reads s.writes bx so.bounded).sound.bounded,
            )
      ]

  pub write_state-Stays : Returns (write_state true addr self s) (λ r. Stays s r.1)
  unfolding write_state
  write_state-Stays =
      let i = so.system in
      let (lt, wide) = i.wide self t f in
      let own = tid_of-epoch s self t i f in
      let ne = epoch-ne-shared s self t i f in
      elim (Option-cases (lookup addr s.vstates)) [
        | inr (x, g) ↦
            let (a, go, b) =
              ft_write-Bounded s.num_threads x t (so.bounded addr x g) i.few lt wide own ne
                s.writes in
            (
              (a.is_racy, record s { writes = a.count; vstates = insert addr a.var s.vstates }),
              rw (get_var_state-found addr true self s x g, get_state-found self s t f, go),
              insert-Stays a.var s.vstates s.reads a.count b so.bounded,
            )
        | inl g ↦
            let x : VarState = record { w = t.epoch; r = shl24 t.tid; rvc = []; racy = false } in
            let m = insert addr x s.vstates in
            let bx = fresh-Bounded t.epoch (shl24 t.tid) own tid_of-zero unshared_zero in
            let (a, go, b) = ft_write-Bounded s.num_threads x t bx i.few lt wide own ne s.writes in
            (
              (a.is_racy, record s { writes = a.count; vstates = insert addr a.var m }),
              rw (
                get_var_state-new addr true self s t f g,
                get_state-found self (record s { vstates = m }) t f,
                go,
              ),
              insert-Stays a.var m s.reads a.count b
                  (insert-Stays x s.vstates s.reads s.writes bx so.bounded).sound.bounded,
            )
      ]

-- The synchronisation callbacks touch no variable.
pub Synced-Stays : (s s' : State) → Sound s → Synced s s' → Stays s s'
Synced-Stays s s' so y = record {
  sound = record {
    system = y.system;
    bounded = λ addr x e.
        subst (λ n. Bounded n x) (sym y.num)
          (so.bounded addr x (sym (ap (lookup addr) y.vstates) ∙ e));
  };
  paced = Synced-Paced s s' y;
}
