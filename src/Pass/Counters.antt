-- ===== src/Pass/Counters.antt =====
-- The counters of the pass, `STATISTIC(Num...)`, in
-- llvm/lib/Transforms/Instrumentation/ThreadSanitizer.cpp: for each function of the pass the list of
-- the counters that it increments, in order.
use embed_sanitizer.Common.{ℕ, not, none, some, List, [], ◌∷◌, ◌++◌, if◌then◌else◌}
use embed_sanitizer.Ir.{
  Llvm, AtomicInst, address_of, MemInst, load, store, memory, is_write, Inst, plain, atomic, call,
  invoke, other,
}
use embed_sanitizer.Access.{is_vtable_access, get_memory_access_func_index}
use embed_sanitizer.Pass.{
  should_instrument, addr_points_to_constant_data, is_not_captured, is_target, visit, reverse,
  Collected, collect_inst, collect_block,
}

pub data Counter : Type 0 where
  num_instrumented_reads num_instrumented_writes num_omitted_reads_before_write : Counter
  num_accesses_with_bad_size num_instrumented_vtable_writes num_instrumented_vtable_reads : Counter
  num_omitted_reads_from_constant_globals num_omitted_reads_from_vtable : Counter
  num_omitted_non_captured : Counter

-- `addrPointsToConstantData`
unfoldable pub count_constant_data : Llvm → ℕ → List Counter
unfolding is_vtable_access
count_constant_data ir addr =
    let base : ℕ = elim (ir.gep_operand addr) [ none ↦ addr | some operand ↦ operand ] in
    elim (ir.global base) [
      | some g ↦ if g.is_constant then num_omitted_reads_from_constant_globals ∷ [] else []
      | none ↦ elim (ir.load_tag base) [
        | none ↦ []
        | some tag ↦ if is_vtable_access tag then num_omitted_reads_from_vtable ∷ [] else []
      ]
    ]

unfoldable pub count_not_captured : Llvm → ℕ → List Counter
count_not_captured ir addr = if is_not_captured ir addr then num_omitted_non_captured ∷ [] else []

-- One round of `chooseInstructionsToInstrument`.
unfoldable pub count_visit : Llvm → MemInst → List ℕ → List Counter
unfolding count_not_captured
count_visit ir (store m) targets =
    if not (should_instrument ir m.addr) then [] else count_not_captured ir m.addr
count_visit ir (load m) targets =
    if not (should_instrument ir m.addr)
    then []
    else if is_target m.addr targets
    then num_omitted_reads_before_write ∷ []
    else if addr_points_to_constant_data ir m.addr
    then count_constant_data ir m.addr
    else count_constant_data ir m.addr ++ count_not_captured ir m.addr

unfoldable pub count_choose_loop : Llvm → List MemInst → List ℕ → List Counter
count_choose_loop ir [] targets = []
count_choose_loop ir (i ∷ rest) targets =
    count_visit ir i targets ++ count_choose_loop ir rest (visit ir i targets).1

unfoldable pub count_choose : Llvm → List MemInst → List Counter
unfolding count_choose_loop
count_choose ir local = count_choose_loop ir (reverse local) []

-- The loops of `runOnFunction` over the instructions, the blocks and the accesses.
unfoldable pub count_inst : Llvm → Inst → Collected → List Counter
count_inst ir (plain i) c = []
count_inst ir (atomic a) c = []
count_inst ir (call callee arg mem_intrinsic) c = count_choose ir c.local
count_inst ir invoke c = count_choose ir c.local
count_inst ir other c = []

unfoldable pub count_block : Llvm → List Inst → Collected → List Counter
unfolding count_inst
count_block ir [] c = count_choose ir c.local
count_block ir (i ∷ rest) c = count_inst ir i c ++ count_block ir rest (collect_inst ir i c)

unfoldable pub count_collect : Llvm → List (List Inst) → Collected → List Counter
unfolding count_block
count_collect ir [] c = []
count_collect ir (block ∷ rest) c =
    count_block ir block c ++ count_collect ir rest (collect_block ir block c)

-- `instrumentLoadOrStore`, with `getMemoryAccessFuncIndex`.
unfoldable pub count_access : Llvm → MemInst → List Counter
count_access ir i =
    let m = memory i in
    if ir.is_swift_error m.addr then [] else elim (get_memory_access_func_index ir m.addr) [
      | none ↦ num_accesses_with_bad_size ∷ []
      | some idx ↦
          if is_vtable_access m.tag
          then (if is_write i
              then num_instrumented_vtable_writes ∷ []
              else num_instrumented_vtable_reads ∷ [])
          else if is_write i
          then num_instrumented_writes ∷ []
          else num_instrumented_reads ∷ []
    ]

unfoldable pub count_accesses : Llvm → List MemInst → List Counter
unfolding count_access
count_accesses ir [] = []
count_accesses ir (i ∷ rest) = count_access ir i ++ count_accesses ir rest

-- `instrumentAtomic`, which counts in `getMemoryAccessFuncIndex` alone.
unfoldable pub count_atomic : Llvm → AtomicInst → List Counter
count_atomic ir i = elim (address_of i) [
  | none ↦ []
  | some addr ↦ elim (get_memory_access_func_index ir addr) [
    | none ↦ num_accesses_with_bad_size ∷ []
    | some idx ↦ []
  ]
]

unfoldable pub count_atomics : Llvm → List AtomicInst → List Counter
unfolding count_atomic
count_atomics ir [] = []
count_atomics ir (i ∷ rest) = count_atomic ir i ++ count_atomics ir rest
