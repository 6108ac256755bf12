-- ===== src/Pass/Covered.antt =====
-- `chooseInstructionsToInstrument` and the order of events: a load that is left out because a store
-- follows it, and the races that it is part of.
use mathlib.Core.Path.{subst}
use mathlib.Core.List.{append_assoc, Mem, mem-append_right}
use embed_sanitizer.Common.{
  ℕ, suc, ◌≤◌, ◌<◌, ◌≡◌, ◌≢◌, ◌∙◌, refl, sym, ap, inl, inr, true, false, Bool-cases, List, [], ◌∷◌,
  ◌++◌, arith,
}
use embed_sanitizer.Ir.{Llvm, Memory, MemInst, load, store}
use embed_sanitizer.Trace.{Place, Action, read, write, create, Event}
use embed_sanitizer.Trace.Shadowed.{
  is_access, IsCalm, no_access, earlier_or_not, first_or_later, Race, Shadowed, Shadowed-Race,
}
use embed_sanitizer.Pass.{
  should_instrument, is_not_captured, addr_points_to_constant_data, visit, choose,
}
use embed_sanitizer.Pass.Choose.{
  targets, excluded, overwritten, constant, not_captured, visit-Omitted, choose-selected,
  selected-Mem,
}

-- The event that an instruction makes, where `value` gives the address that an operand stands for.
pub data Makes (value : ℕ → ℕ) (a : Action) : MemInst → Type 0 where
  reads : (m : Memory) (p : Place) → a ≡ read (value m.addr) p → Makes value a (load m)
  writes : (m : Memory) (p : Place) → a ≡ write (value m.addr) p → Makes value a (store m)

-- From one position to another the thread does nothing, nor is it started.
abbrev pub IsIdle : (ℕ → Event) → ℕ → ℕ → ℕ → Type 0
IsIdle tr t start end =
    (j : ℕ) → start ≤ j → j < end → ((tr j).self ≢ t) × ((tr j).action ≢ create t)

-- The thread makes the accesses of a stretch without calls, the first one at `start` or later. Other
-- threads may act in between.
pub data Executes (tr : ℕ → Event) (t : ℕ) (value : ℕ → ℕ) : ℕ → List MemInst → Type 0 where
  done : {start : ℕ} → Executes tr t value start []
  step :
      {start : ℕ} {i : MemInst} {rest : List MemInst} (j : ℕ)
      → start ≤ j
      → IsIdle tr t start j
      → (tr j).self ≡ t
      → Makes value (tr j).action i
      → Executes tr t value (suc j) rest
      → Executes tr t value start (i ∷ rest)

-- The position at which a store of the stretch is executed.
record Stored (tr : ℕ → Event) (t : ℕ) (value : ℕ → ℕ) (start : ℕ) (w : Memory) : Type 0 where
  at : ℕ
  from : start ≤ at
  own : (tr at).self ≡ t
  place : Place
  made : (tr at).action ≡ write (value w.addr) place
  calm : (j : ℕ) → start ≤ j → j ≤ at → IsCalm tr t j

Makes-is_access : (value : ℕ → ℕ) (a : Action) (i : MemInst) → Makes value a i → is_access a ≡ true
Makes-is_access value a _ (reads m p e) = rw e refl
Makes-is_access value a _ (writes m p e) = rw e refl

made_by :
    (value : ℕ → ℕ) (a : Action) (w : Memory)
    → Makes value a (store w)
    → (p : Place) × (a ≡ write (value w.addr) p)
made_by value a w (writes m p e) = (p, e)

access-IsCalm : (tr : ℕ → Event) (t : ℕ) (j : ℕ) → is_access (tr j).action ≡ true → IsCalm tr t j
access-IsCalm tr t j h = (λ self. h, no_access (tr j).action (create t) h refl)

-- Up to and with its next access the thread is calm.
IsCalm-until :
    (tr : ℕ → Event) (t start j : ℕ)
    → IsIdle tr t start j
    → is_access (tr j).action ≡ true
    → (k : ℕ) → start ≤ k
    → k ≤ j
    → IsCalm tr t k
IsCalm-until tr t start j idle h k from to = elim (first_or_later k j to) [
  | inl same ↦ subst (IsCalm tr t) (sym same) (access-IsCalm tr t j h)
  | inr before ↦ let (other, not_new) = idle k from before in (λ self. absurd (other self), not_new)
]

Executes-Stored :
    (tr : ℕ → Event) (t : ℕ) (value : ℕ → ℕ) (start : ℕ) (w : Memory) (between rest : List MemInst)
    → Executes tr t value start (between ++ store w ∷ rest)
    → Stored tr t value start w
Executes-Stored tr t value start w [] rest (step j le idle self makes on) =
    let (p, e) = made_by value (tr j).action w makes in
    record {
      at = j;
      from = le;
      own = self;
      place = p;
      made = e;
      calm = IsCalm-until tr t start j idle (Makes-is_access value (tr j).action (store w) makes);
    }
Executes-Stored tr t value start w (i ∷ between) rest (step j le idle self makes on) =
    let st = Executes-Stored tr t value (suc j) w between rest on in
    record {
      at = st.at;
      from = omega (arith, st.from);
      own = st.own;
      place = st.place;
      made = st.made;
      calm = λ k from to. elim (earlier_or_not j k) [
        | inl later ↦ st.calm k later to
        | inr now ↦
            IsCalm-until tr t start j idle (Makes-is_access value (tr j).action i makes) k from now
      ];
    }

-- What becomes of a load at position `i`, where `chosen` is what is instrumented of its stretch.
pub data Fate (ir : Llvm) (tr : ℕ → Event) (m : Memory) (i : ℕ) (chosen : List MemInst)
    : Type 0 where
  instrumented : Mem (load m) chosen → Fate ir tr m i chosen
  foreign : should_instrument ir m.addr ≡ false → Fate ir tr m i chosen
  unchanging : addr_points_to_constant_data ir m.addr ≡ true → Fate ir tr m i chosen
  private : is_not_captured ir m.addr ≡ true → Fate ir tr m i chosen
  covered :
      (s : ℕ) (w : Memory)
      → Shadowed tr i s
      → Mem (store w) chosen
      → w.addr ≡ m.addr
      → ((e : ℕ) → Race tr i e → Race tr s e)
      → Fate ir tr m i chosen

choose-Mem :
    (ir : Llvm) (before after all : List MemInst) (i : MemInst)
    → (visit ir i (targets ir after)).0 ≡ true
    → Mem i (choose ir (before ++ i ∷ after) all)
choose-Mem ir before after all i h =
    rw (choose-selected ir (before ++ i ∷ after) all)
      (mem-append_right all (selected-Mem ir before after i h))

store-visit :
    (ir : Llvm) (w : Memory) (t : List ℕ)
    → should_instrument ir w.addr ≡ true
    → is_not_captured ir w.addr ≡ false
    → (visit ir (store w) t).0 ≡ true
unfolding visit
store-visit ir w t fine seen = rw (fine, seen) refl

read_by :
    (value : ℕ → ℕ) (a : Action) (m : Memory)
    → Makes value a (load m)
    → (p : Place) × (a ≡ read (value m.addr) p)
read_by value a m (reads _ p e) = (p, e)

store-covered :
    (ir : Llvm) (tr : ℕ → Event) (value : ℕ → ℕ) (before between rest all : List MemInst)
    (m w : Memory) (i : ℕ)
    → Makes value (tr i).action (load m)
    → w.addr ≡ m.addr
    → should_instrument ir w.addr ≡ true
    → is_not_captured ir w.addr ≡ false
    → Executes tr (tr i).self value (suc i) (between ++ store w ∷ rest)
    → Fate ir tr m i (choose ir (before ++ load m ∷ (between ++ store w ∷ rest)) all)
store-covered ir tr value before between rest all m w i makes same fine seen on =
    let st = Executes-Stored tr (tr i).self value (suc i) w between rest on in
    let (p, reading) = read_by value (tr i).action m makes in
    let pushed =
      choose-Mem ir (before ++ load m ∷ between) rest all (store w)
        (store-visit ir w (targets ir rest) fine seen) in
    let shadowed : Shadowed tr i st.at = record {
      addr = value m.addr;
      read_at = p;
      write_at = st.place;
      later = st.from;
      own = st.own;
      reading = reading;
      writing = st.made ∙ ap (λ z. write (value z) st.place) same;
      calm = λ j lt le. st.calm j lt le;
    } in
    covered st.at w shadowed
      (rw (append_assoc before (load m ∷ between) (store w ∷ rest)) at pushed) same
      (Shadowed-Race tr i st.at shadowed)

-- A thread executes a load of a stretch without calls and then the rest of the stretch, while other
-- threads do what they want: the load is instrumented, its address is excluded, constant or on the
-- stack and not captured, or a later store of the stretch to the same address is instrumented that
-- the thread executes and that is in a race with every access that the load is in a race with.
pub choose-Fate :
    (ir : Llvm) (tr : ℕ → Event) (value : ℕ → ℕ) (before after all : List MemInst) (m : Memory)
    (i : ℕ)
    → Makes value (tr i).action (load m)
    → Executes tr (tr i).self value (suc i) after
    → Fate ir tr m i (choose ir (before ++ load m ∷ after) all)
choose-Fate ir tr value before after all m i makes on = elim (visit-Omitted ir (load m) after) [
  | inl pushed ↦ instrumented (choose-Mem ir before after all (load m) pushed)
  | inr (excluded h) ↦ foreign h
  | inr (constant h _) ↦ unchanging h
  | inr (not_captured h) ↦ private h
  | inr (overwritten between rest w split same fine _) ↦
      elim (Bool-cases (is_not_captured ir m.addr)) [
        | inl hidden ↦ private hidden
        | inr seen ↦
            subst
              (λ z.
                Executes tr (tr i).self value (suc i) z
                → Fate ir tr m i (choose ir (before ++ load m ∷ z) all))
              (sym split)
              (store-covered ir tr value before between rest all m w i makes same fine
                (ap (is_not_captured ir) same ∙ seen))
              on
      ]
]
