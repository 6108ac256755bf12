-- ===== src/Pass/Called.antt =====
-- The counters of the pass that stand for calls.
use embed_sanitizer.Common.{
  ℕ, ◌≡◌, ◌∙◌, refl, ap, Bool, true, false, Bool-cases, inl, inr, List, [], ◌∷◌, ◌++◌, arith,
  if◌then◌else◌,
}
use embed_sanitizer.Ir.{
  Llvm, MemInst, load, store, is_write, Inst, plain, atomic, call, invoke, other,
}
use embed_sanitizer.Access.{Callback, vptr_update, vptr_load, aligned, unaligned}
use embed_sanitizer.Pass.{visit, reverse, Collected, collect_inst, collect_block}
use embed_sanitizer.Pass.Counters.{
  Counter, num_instrumented_reads, num_instrumented_writes, num_instrumented_vtable_writes,
  num_instrumented_vtable_reads, count_constant_data, count_not_captured, count_visit,
  count_choose_loop, count_choose, count_inst, count_block, count_collect,
}

-- The counter that stands for a call, and those among them that stand for one.
abbrev pub counter_of : Callback → Counter
counter_of vptr_update = num_instrumented_vtable_writes
counter_of vptr_load = num_instrumented_vtable_reads
counter_of (aligned is_write idx) =
    if is_write then num_instrumented_writes else num_instrumented_reads
counter_of (unaligned is_write idx) =
    if is_write then num_instrumented_writes else num_instrumented_reads

abbrev is_for_call : Counter → Bool
is_for_call num_instrumented_reads = true
is_for_call num_instrumented_writes = true
is_for_call num_instrumented_vtable_writes = true
is_for_call num_instrumented_vtable_reads = true
is_for_call _ = false

abbrev pub for_calls : List Counter → List Counter
for_calls [] = []
for_calls (c ∷ rest) = if is_for_call c then c ∷ for_calls rest else for_calls rest

pub for_calls-append : (xs ys : List Counter) → for_calls (xs ++ ys) ≡ for_calls xs ++ for_calls ys
for_calls-append [] ys = refl
for_calls-append (x ∷ xs) ys = elim (Bool-cases (is_for_call x)) [
  | inl y ↦ rw y (ap (λ z. x ∷ z) (for_calls-append xs ys))
  | inr n ↦ rw n (for_calls-append xs ys)
]

none_for_calls :
    (xs ys : List Counter) → for_calls xs ≡ [] → for_calls ys ≡ [] → for_calls (xs ++ ys) ≡ []
none_for_calls xs ys a b = for_calls-append xs ys ∙ rw (a, b) refl

constant_data-for_calls : (ir : Llvm) (addr : ℕ) → for_calls (count_constant_data ir addr) ≡ []
unfolding count_constant_data
constant_data-for_calls ir addr = ground arith

not_captured-for_calls : (ir : Llvm) (addr : ℕ) → for_calls (count_not_captured ir addr) ≡ []
unfolding count_not_captured
not_captured-for_calls ir addr = ground arith

visit-for_calls : (ir : Llvm) (i : MemInst) (t : List ℕ) → for_calls (count_visit ir i t) ≡ []
unfolding count_visit
visit-for_calls ir (store m) t = let a = not_captured-for_calls ir m.addr in ground (arith, a)
visit-for_calls ir (load m) t =
    let a = not_captured-for_calls ir m.addr in
    let b = constant_data-for_calls ir m.addr in
    let c = none_for_calls (count_constant_data ir m.addr) (count_not_captured ir m.addr) b a in
    ground (arith, b, c)

choose_loop-for_calls :
    (ir : Llvm) (l : List MemInst) (t : List ℕ) → for_calls (count_choose_loop ir l t) ≡ []
unfolding count_choose_loop
choose_loop-for_calls ir [] t = refl
choose_loop-for_calls ir (i ∷ rest) t =
    let after = (visit ir i t).1 in
    none_for_calls (count_visit ir i t) (count_choose_loop ir rest after) (visit-for_calls ir i t)
      (choose_loop-for_calls ir rest after)

choose-for_calls : (ir : Llvm) (local : List MemInst) → for_calls (count_choose ir local) ≡ []
unfolding count_choose
choose-for_calls ir local = choose_loop-for_calls ir (reverse local) []

inst-for_calls : (ir : Llvm) (i : Inst) (c : Collected) → for_calls (count_inst ir i c) ≡ []
unfolding count_inst
inst-for_calls ir (plain i) c = refl
inst-for_calls ir (atomic a) c = refl
inst-for_calls ir (call callee arg mem_intrinsic) c = choose-for_calls ir c.local
inst-for_calls ir invoke c = choose-for_calls ir c.local
inst-for_calls ir other c = refl

block-for_calls :
    (ir : Llvm) (block : List Inst) (c : Collected) → for_calls (count_block ir block c) ≡ []
unfolding count_block
block-for_calls ir [] c = choose-for_calls ir c.local
block-for_calls ir (i ∷ rest) c =
    let d = collect_inst ir i c in
    none_for_calls (count_inst ir i c) (count_block ir rest d) (inst-for_calls ir i c)
      (block-for_calls ir rest d)

-- What is gathered counts no call.
pub collect-for_calls :
    (ir : Llvm) (blocks : List (List Inst)) (c : Collected)
    → for_calls (count_collect ir blocks c) ≡ []
unfolding count_collect
collect-for_calls ir [] c = refl
collect-for_calls ir (block ∷ rest) c =
    let d = collect_block ir block c in
    none_for_calls (count_block ir block c) (count_collect ir rest d) (block-for_calls ir block c)
      (collect-for_calls ir rest d)
