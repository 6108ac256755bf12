-- ===== src/Pass.antt =====
-- The instrumentation pass, llvm/lib/Transforms/Instrumentation/ThreadSanitizer.cpp: which loads and
-- stores of a function get a callback, and what else it gathers of a function.
pub mod Accounts
pub mod Called
pub mod Choose
pub mod Collect
pub mod Counters
pub mod Covered
pub mod Select
pub mod Sync
use embed_sanitizer.Common.{
  ℕ, zero, suc, Bool, true, false, not, ◌&&◌, ◌||◌, Option, none, some, List, [], ◌∷◌, ◌++◌, ltb,
  ◌==◌, if◌then◌else◌,
}
use embed_sanitizer.Report.{Text, codes}
use embed_sanitizer.Names.{starts_with, ends_with}
use embed_sanitizer.Ir.{
  Global, Llvm, Memory, MemInst, load, store, memory, AtomicInst, MemIntrinsic, Inst, plain, atomic,
  call, invoke, other,
}
use embed_sanitizer.Access.{is_vtable_access}

unfoldable pub is_instrumented_global : Llvm → Global → Bool
is_instrumented_global ir g =
    let in_section : Bool = elim g.section [
      | none ↦ false
      | some name ↦ ends_with ir.counters_section name
    ] in
    not (
      in_section
      || (starts_with (codes "__llvm_gcov") g.name || starts_with (codes "__llvm_gcda") g.name))

-- `shouldInstrumentReadWriteFromAddress`
unfoldable pub should_instrument : Llvm → ℕ → Bool
unfolding is_instrumented_global
should_instrument ir addr =
    let base = ir.strip_in_bounds_offsets addr in
    let fine : Bool = elim (ir.global base) [
      | none ↦ true
      | some g ↦ is_instrumented_global ir g
    ] in
    fine && (ir.address_space base == 0)

unfoldable pub addr_points_to_constant_data : Llvm → ℕ → Bool
unfolding is_vtable_access
addr_points_to_constant_data ir addr =
    let base : ℕ = elim (ir.gep_operand addr) [ none ↦ addr | some operand ↦ operand ] in
    elim (ir.global base) [
      | some g ↦ g.is_constant
      | none ↦ elim (ir.load_tag base) [ none ↦ false | some tag ↦ is_vtable_access tag ]
    ]

-- The variable is on the stack, and no other thread has its address.
unfoldable pub is_not_captured : Llvm → ℕ → Bool
is_not_captured ir addr = ir.is_alloca (ir.underlying_object addr) && not (ir.may_be_captured addr)

unfoldable pub is_target : ℕ → List ℕ → Bool
is_target addr [] = false
is_target addr (a ∷ targets) = (a == addr) || is_target addr targets

-- One round of `chooseInstructionsToInstrument`: whether the instruction is pushed, and
-- `WriteTargets` after it.
unfoldable pub visit : Llvm → MemInst → List ℕ → Bool × List ℕ
visit ir (store m) targets =
    if not (should_instrument ir m.addr)
    then (false, targets)
    else (not (is_not_captured ir m.addr), m.addr ∷ targets)
visit ir (load m) targets =
    if not (should_instrument ir m.addr)
    then (false, targets)
    else if is_target m.addr targets
    then (false, targets)
    else if addr_points_to_constant_data ir m.addr
    then (false, targets)
    else (not (is_not_captured ir m.addr), targets)

unfoldable pub reverse {ℓ} : {A : Type ℓ} → List A → List A
reverse [] = []
reverse (x ∷ xs) = reverse xs ++ x ∷ []

unfoldable pub choose_loop : Llvm → List MemInst → List ℕ → List MemInst → List MemInst
choose_loop ir [] targets all = all
choose_loop ir (i ∷ rest) targets all =
    let (pushed, targets') = visit ir i targets in
    choose_loop ir rest targets' (if pushed then all ++ i ∷ [] else all)

-- `chooseInstructionsToInstrument`; it leaves `Local` empty.
unfoldable pub choose : Llvm → List MemInst → List MemInst → List MemInst
unfolding choose_loop reverse
choose ir local all = choose_loop ir (reverse local) [] all

-- `EmbedSanitizer::InstrIfSynchronization`: the callback, whether it is made after the call, and its
-- argument.
pub data SyncCallback : Type 0 where
  thread_create thread_join thread_lock thread_unlock : SyncCallback

unfoldable pub instr_if_synchronization : Option Text → ℕ → Option (SyncCallback × Bool × ℕ)
instr_if_synchronization none arg = none
instr_if_synchronization (some name) arg =
    if starts_with (codes "pthread_create") name
    then some (thread_create, true, arg)
    else if starts_with (codes "pthread_join") name
    then some (thread_join, true, arg)
    else if starts_with (codes "pthread_mutex_lock") name
    then some (thread_lock, true, arg)
    else if starts_with (codes "pthread_mutex_unlock") name
    then some (thread_unlock, false, arg)
    else none

-- The vectors that `runOnFunction` fills, with the callbacks for synchronisation.
pub record Collected : Type 0 where
  pub all : List MemInst
  pub local : List MemInst
  pub atomics : List AtomicInst
  pub mem_intrinsics : List MemIntrinsic
  pub has_calls : Bool
  pub syncs : List (SyncCallback × Bool × ℕ)

-- `chooseInstructionsToInstrument(LocalLoadsAndStores, AllLoadsAndStores, DL)`
unfoldable pub flush : Llvm → Collected → Collected
flush ir c = record c { all = choose ir c.local c.all; local = [] }

unfoldable pub collect_inst : Llvm → Inst → Collected → Collected
unfolding instr_if_synchronization flush
collect_inst ir (plain i) c = record c { local = c.local ++ i ∷ [] }
collect_inst ir (atomic a) c = record c { atomics = c.atomics ++ a ∷ [] }
collect_inst ir (call callee arg mem_intrinsic) c = flush ir (record c {
  syncs = elim (instr_if_synchronization callee arg) [
    | none ↦ c.syncs
    | some sync ↦ c.syncs ++ sync ∷ []
  ];
  mem_intrinsics = elim mem_intrinsic [
    | none ↦ c.mem_intrinsics
    | some m ↦ c.mem_intrinsics ++ m ∷ []
  ];
  has_calls = true;
})
collect_inst ir invoke c = flush ir (record c { has_calls = true })
collect_inst ir other c = c

-- The loop over a block, which ends with a flush.
unfoldable pub collect_block : Llvm → List Inst → Collected → Collected
unfolding collect_inst flush
collect_block ir [] c = flush ir c
collect_block ir (i ∷ rest) c = collect_block ir rest (collect_inst ir i c)

unfoldable pub collect : Llvm → List (List Inst) → Collected → Collected
unfolding collect_block
collect ir [] c = c
collect ir (block ∷ rest) c = collect ir rest (collect_block ir block c)
