-- ===== src/Pass/Choose.antt =====
-- `chooseInstructionsToInstrument`: what it leaves out, and why.
use mathlib.Core.List.{
  append-nil, append_assoc, Mem, mem-cons_self, mem-append_left, mem-append_right,
}
use embed_sanitizer.Common.{
  ℕ, ◌≡◌, ◌⊎◌, ◌∙◌, refl, sym, inl, inr, Bool, true, false, ◌||◌, Bool-cases, eqb→eq, List, [], ◌∷◌,
  ◌++◌, arith, if◌then◌else◌, ◌==◌, ap,
}
use embed_sanitizer.Ir.{Llvm, Memory, MemInst, load, store, memory, is_write}
use embed_sanitizer.Pass.{
  should_instrument, addr_points_to_constant_data, is_not_captured, is_target, visit, reverse,
  choose_loop, choose,
}

-- The targets of the stores among the instructions, that a walk from the end has met.
abbrev pub targets : Llvm → List MemInst → List ℕ
targets ir [] = []
targets ir (i ∷ after) = (visit ir i (targets ir after)).1

-- The instructions that are to be instrumented, by what comes after each.
abbrev pub selected : Llvm → List MemInst → List MemInst
selected ir [] = []
selected ir (i ∷ after) =
    selected ir after ++ (if (visit ir i (targets ir after)).0 then i ∷ [] else [])

pushed_again :
    (b : Bool) (all chosen : List MemInst) (i : MemInst)
    → (if b then (all ++ chosen) ++ i ∷ [] else all ++ chosen)
      ≡ all ++ (chosen ++ (if b then i ∷ [] else []))
pushed_again true all chosen i = append_assoc all chosen (i ∷ [])
pushed_again false all chosen i = ap (λ z. all ++ z) (sym (append-nil chosen))

choose_loop-reverse :
    (ir : Llvm) (local rest all : List MemInst)
    → choose_loop ir (reverse local ++ rest) [] all
      ≡ choose_loop ir rest (targets ir local) (all ++ selected ir local)
unfolding choose_loop reverse
choose_loop-reverse ir [] rest all = rw (append-nil all) refl
choose_loop-reverse ir (i ∷ after) rest all =
    let t = targets ir after in
    rw (append_assoc (reverse after) (i ∷ []) rest) (
      choose_loop-reverse ir after (i ∷ rest) all
      ∙ ap (choose_loop ir rest (visit ir i t).1)
          (pushed_again (visit ir i t).0 all (selected ir after) i))

-- Walking from the end with the set of store targets selects, behind what was there, the
-- instructions that the tests on each one and on what comes after it select.
pub choose-selected :
    (ir : Llvm) (local all : List MemInst) → choose ir local all ≡ all ++ selected ir local
unfolding choose
choose-selected ir local all =
    let e = choose_loop-reverse ir local [] all in
    unfold choose_loop in rw (append-nil (reverse local)) at e

-- Why an instruction is left out, by what comes after it.
pub data Omitted (ir : Llvm) (i : MemInst) (after : List MemInst) : Type 0 where
  excluded : should_instrument ir (memory i).addr ≡ false → Omitted ir i after
  overwritten :
      (between rest : List MemInst) (w : Memory)
      → after ≡ between ++ store w ∷ rest
      → w.addr ≡ (memory i).addr
      → should_instrument ir w.addr ≡ true
      → is_write i ≡ false
      → Omitted ir i after
  constant :
      addr_points_to_constant_data ir (memory i).addr ≡ true
      → is_write i ≡ false
      → Omitted ir i after
  not_captured : is_not_captured ir (memory i).addr ≡ true → Omitted ir i after

-- A target is the address of a store that comes after.
record Store (ir : Llvm) (addr : ℕ) (after : List MemInst) : Type 0 where
  between : List MemInst
  w : Memory
  rest : List MemInst
  split : after ≡ between ++ store w ∷ rest
  same : w.addr ≡ addr
  instrumented : should_instrument ir w.addr ≡ true

behind :
    {ir : Llvm} {addr : ℕ} {after : List MemInst} (i : MemInst)
    → Store ir addr after
    → Store ir addr (i ∷ after)
behind i s = record {
  between = i ∷ s.between;
  w = s.w;
  rest = s.rest;
  split = ap (λ z. i ∷ z) s.split;
  same = s.same;
  instrumented = s.instrumented;
}

visit-load-targets : (ir : Llvm) (m : Memory) (t : List ℕ) → (visit ir (load m) t).1 ≡ t
unfolding visit
visit-load-targets ir m t = ground arith

visit-store-targets :
    (ir : Llvm) (m : Memory) (t : List ℕ)
    → should_instrument ir m.addr ≡ true
    → (visit ir (store m) t).1 ≡ m.addr ∷ t
unfolding visit
visit-store-targets ir m t h = rw h refl

visit-excluded-targets :
    (ir : Llvm) (m : Memory) (t : List ℕ)
    → should_instrument ir m.addr ≡ false
    → (visit ir (store m) t).1 ≡ t
unfolding visit
visit-excluded-targets ir m t h = rw h refl

target-Store :
    (ir : Llvm) (addr : ℕ) (after : List MemInst)
    → is_target addr (targets ir after) ≡ true
    → Store ir addr after
unfolding is_target
target-Store ir addr [] h = absurd (cc)
target-Store ir addr (load m ∷ after) h =
    behind (load m)
      (target-Store ir addr after (rw (visit-load-targets ir m (targets ir after)) at h))
target-Store ir addr (store m ∷ after) h = elim (Bool-cases (should_instrument ir m.addr)) [
  | inr bad ↦
      behind (store m)
        (target-Store ir addr after (rw (visit-excluded-targets ir m (targets ir after) bad) at h))
  | inl fine ↦
      let h' : ((m.addr == addr) || is_target addr (targets ir after)) ≡ true =
        rw (visit-store-targets ir m (targets ir after) fine, is_target) at h in
      elim (Bool-cases (m.addr == addr)) [
        | inl same ↦ record {
          between = [];
          w = m;
          rest = after;
          split = refl;
          same = eqb→eq m.addr addr same;
          instrumented = fine;
        }
        | inr other ↦ behind (store m) (target-Store ir addr after (rw other at h'))
      ]
]

pub visit-Omitted :
    (ir : Llvm) (i : MemInst) (after : List MemInst)
    → ((visit ir i (targets ir after)).0 ≡ true) ⊎ Omitted ir i after
unfolding visit
visit-Omitted ir (store m) after = elim (Bool-cases (should_instrument ir m.addr)) [
  | inr bad ↦ inr (excluded bad)
  | inl fine ↦ elim (Bool-cases (is_not_captured ir m.addr)) [
    | inl hidden ↦ inr (not_captured hidden)
    | inr seen ↦ inl (rw (fine, seen) refl)
  ]
]
visit-Omitted ir (load m) after = elim (Bool-cases (should_instrument ir m.addr)) [
  | inr bad ↦ inr (excluded bad)
  | inl fine ↦ elim (Bool-cases (is_target m.addr (targets ir after))) [
    | inl later ↦
        let s = target-Store ir m.addr after later in
        inr (overwritten s.between s.rest s.w s.split s.same s.instrumented refl)
    | inr fresh ↦ elim (Bool-cases (addr_points_to_constant_data ir m.addr)) [
      | inl fixed ↦ inr (constant fixed refl)
      | inr varies ↦ elim (Bool-cases (is_not_captured ir m.addr)) [
        | inl hidden ↦ inr (not_captured hidden)
        | inr seen ↦ inl (rw (fine, fresh, varies, seen) refl)
      ]
    ]
  ]
]

pub selected-Mem :
    (ir : Llvm) (before after : List MemInst) (i : MemInst)
    → (visit ir i (targets ir after)).0 ≡ true
    → Mem i (selected ir (before ++ i ∷ after))
selected-Mem ir [] after i h = mem-append_right (selected ir after) (rw h mem-cons_self)
selected-Mem ir (b ∷ before) after i h = mem-append_left _ (selected-Mem ir before after i h)

-- Every load and store of a block without calls is to be instrumented, unless its address is
-- excluded, the variable is on the stack and not captured, or it is a load from constant data or
-- one that an instrumentable store to the same address follows.
pub choose-Omitted :
    (ir : Llvm) (before after all : List MemInst) (i : MemInst)
    → Mem i (choose ir (before ++ i ∷ after) all) ⊎ Omitted ir i after
choose-Omitted ir before after all i = elim (visit-Omitted ir i after) [
  | inr o ↦ inr o
  | inl pushed ↦ inl (
      rw (choose-selected ir (before ++ i ∷ after) all)
        (mem-append_right all (selected-Mem ir before after i pushed)))
]
