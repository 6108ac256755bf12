-- ===== src/Atomic.antt =====
-- Atomic instructions in llvm/lib/Transforms/Instrumentation/ThreadSanitizer.cpp: the callbacks that
-- `initializeCallbacks` declares for them, and the one that takes the place of each instruction.
pub mod Replaced
use embed_sanitizer.Common.{
  ℕ, ◌*◌, ◌^◌, Option, none, some, List, [], ◌∷◌, ◌++◌, Bool, Run, ok, fault, failed_assert, ◌>>=◌,
  if◌then◌else◌,
}
use embed_sanitizer.Report.{Text, codes, show_unsigned}
use embed_sanitizer.Ir.{
  Llvm, AtomicOrdering, not_atomic, unordered, monotonic, acquire, release, acquire_release,
  sequentially_consistent, BinOp, xchg, add, sub, and_op, nand, or_op, xor, AtomicInst, load_inst,
  store_inst, rmw, cmp_xchg, fence, address_of,
}
use embed_sanitizer.Access.{get_memory_access_func_index}

unfoldable pub create_ordering : AtomicOrdering → Run ℕ
create_ordering not_atomic = fault failed_assert
create_ordering unordered = ok 0
create_ordering monotonic = ok 0
create_ordering acquire = ok 2
create_ordering release = ok 3
create_ordering acquire_release = ok 4
create_ordering sequentially_consistent = ok 5

-- `NamePart` in `initializeCallbacks`: the operations without one have no callback.
unfoldable pub name_part : BinOp → Option Text
name_part xchg = some (codes "_exchange")
name_part add = some (codes "_fetch_add")
name_part sub = some (codes "_fetch_sub")
name_part and_op = some (codes "_fetch_and")
name_part or_op = some (codes "_fetch_or")
name_part xor = some (codes "_fetch_xor")
name_part nand = some (codes "_fetch_nand")
name_part _ = none

-- `BitSize` for a callback's index.
abbrev pub bit_size : ℕ → ℕ
bit_size idx = 2 ^ idx * 8

-- The names of the callbacks that `initializeCallbacks` declares for each index.
abbrev pub atomic_name : ℕ → Text → Text
atomic_name idx part = codes "__tsan_atomic" ++ show_unsigned (bit_size idx) ++ part

-- The call that takes an instruction's place: the callback, the width to which values are cast, and
-- what it is handed, the address and the values first and then the memory orders.
pub record AtomicCall : Type 0 where
  pub name : Text
  pub bits : ℕ
  pub args : List ℕ
  pub orders : List ℕ

abbrev pub atomic_call : ℕ → Text → List ℕ → List ℕ → AtomicCall
atomic_call idx part args orders = record {
  name = atomic_name idx part;
  bits = bit_size idx;
  args = args;
  orders = orders;
}

abbrev pub fence_call : Bool → List ℕ → AtomicCall
fence_call single_thread orders = record {
  name =
      if single_thread
      then codes "__tsan_atomic_signal_fence"
      else codes "__tsan_atomic_thread_fence";
  bits = 0;
  args = [];
  orders = orders;
}

-- `TsanAtomicRMW[op][idx]`
unfoldable pub instrument_rmw : BinOp → ℕ → ℕ → ℕ → AtomicOrdering → Run (Option AtomicCall)
unfolding create_ordering name_part
instrument_rmw op idx addr value order = elim (name_part op) [
  | none ↦ ok none
  | some part ↦ do
    o ← create_ordering order
    ok (some (atomic_call idx part (addr ∷ value ∷ []) (o ∷ [])))
]

-- The part of `instrumentAtomic` after the index of the address.
unfoldable pub instrument_at : ℕ → AtomicInst → Run (Option AtomicCall)
unfolding instrument_rmw create_ordering
instrument_at idx (load_inst addr order) = do
  o ← create_ordering order
  ok (some (atomic_call idx (codes "_load") (addr ∷ []) (o ∷ [])))
instrument_at idx (store_inst addr value order) = do
  o ← create_ordering order
  ok (some (atomic_call idx (codes "_store") (addr ∷ value ∷ []) (o ∷ [])))
instrument_at idx (rmw op addr value order) = instrument_rmw op idx addr value order
instrument_at idx (cmp_xchg addr compare new success failure) = do
  s ← create_ordering success
  f ← create_ordering failure
  ok (
      some
        (atomic_call idx (codes "_compare_exchange_val") (addr ∷ compare ∷ new ∷ []) (s ∷ f ∷ [])))
instrument_at idx (fence single_thread order) = do
  o ← create_ordering order
  ok (some (fence_call single_thread (o ∷ [])))

-- `instrumentAtomic`: none where it returns false.
unfoldable pub instrument_atomic : Llvm → AtomicInst → Run (Option AtomicCall)
unfolding instrument_at
instrument_atomic ir i = elim (address_of i) [
  | none ↦ instrument_at 0 i
  | some addr ↦ elim (get_memory_access_func_index ir addr) [
    | none ↦ ok none
    | some idx ↦ instrument_at idx i
  ]
]
