-- ===== src/Ir.antt =====
-- The part of LLVM's representation of programs that the pass of
-- llvm/lib/Transforms/Instrumentation/ThreadSanitizer.cpp reads.
use embed_sanitizer.Common.{ℕ, Bool, true, false, ◌&&◌, Option, none, some, if◌then◌else◌}
use embed_sanitizer.Report.{Text}

-- What the pass reads of a global variable.
pub record Global : Type 0 where
  pub section : Option Text
  pub name : Text
  pub is_constant : Bool

-- What the pass asks LLVM about a value; values are numbers. The object
-- name is that of the object underlying an address. A load's `!tbaa` tag, if it has one,
-- says whether it is an access to a vtable.
pub record Llvm : Type 0 where
  pub strip_in_bounds_offsets : ℕ → ℕ
  pub global : ℕ → Option Global
  pub gep_operand : ℕ → Option ℕ
  pub load_tag : ℕ → Option (Option Bool)
  pub address_space : ℕ → ℕ
  pub underlying_object : ℕ → ℕ
  pub is_alloca : ℕ → Bool
  pub may_be_captured : ℕ → Bool
  pub is_swift_error : ℕ → Bool
  pub store_size_in_bits : ℕ → ℕ
  pub object_name : ℕ → Option Text
  pub counters_section : Text

-- A load or a store that is not atomic, with the line of its debug location and the
-- directory and the file of the location's scope.
pub record Memory : Type 0 where
  pub addr : ℕ
  pub tag : Option Bool
  pub alignment : ℕ
  pub line : Option ℕ
  pub scope : Option (Text × Text)

pub data MemInst : Type 0 where
  load : Memory → MemInst
  store : Memory → MemInst

pub data AtomicOrdering : Type 0 where
  not_atomic unordered monotonic acquire release acquire_release sequentially_consistent :
      AtomicOrdering

pub data BinOp : Type 0 where
  xchg add sub and_op nand or_op xor max_op min_op umax umin : BinOp

-- An instruction for which `isAtomic` holds, with its operands.
pub data AtomicInst : Type 0 where
  load_inst : (addr : ℕ) → AtomicOrdering → AtomicInst
  store_inst : (addr value : ℕ) → AtomicOrdering → AtomicInst
  rmw : BinOp → (addr value : ℕ) → AtomicOrdering → AtomicInst
  cmp_xchg : (addr compare new : ℕ) (success failure : AtomicOrdering) → AtomicInst
  fence : (single_thread : Bool) → AtomicOrdering → AtomicInst

-- What a memory intrinsic does.
pub data MemIntrinsic : Type 0 where
  mem_set mem_cpy mem_move : MemIntrinsic

-- The instructions as the pass tells them apart. A memory intrinsic is a call too.
pub data Inst : Type 0 where
  plain : MemInst → Inst
  atomic : AtomicInst → Inst
  call : (callee : Option Text) (arg : ℕ) (mem_intrinsic : Option MemIntrinsic) → Inst
  invoke : Inst
  other : Inst

abbrev pub memory : MemInst → Memory
memory (load m) = m
memory (store m) = m

abbrev pub is_write : MemInst → Bool
is_write (load m) = false
is_write (store m) = true

abbrev pub address_of : AtomicInst → Option ℕ
address_of (load_inst addr order) = some addr
address_of (store_inst addr value order) = some addr
address_of (rmw op addr value order) = some addr
address_of (cmp_xchg addr compare new success failure) = some addr
address_of (fence single_thread order) = none

-- An instruction of LLVM, as far as the pass looks at it.
pub data RawInst : Type 0 where
  load_raw : Memory → AtomicOrdering → (cross_thread : Bool) → RawInst
  store_raw : Memory → (value : ℕ) → AtomicOrdering → (cross_thread : Bool) → RawInst
  other_raw : Inst → RawInst

abbrev is_atomic_order : AtomicOrdering → Bool
is_atomic_order not_atomic = false
is_atomic_order _ = true

-- `isAtomic` on a load or a store, and the sorting of instructions in `runOnFunction`.
unfoldable pub classify : RawInst → Inst
classify (load_raw m order cross_thread) =
    if is_atomic_order order && cross_thread
    then atomic (load_inst m.addr order)
    else plain (load m)
classify (store_raw m value order cross_thread) =
    if is_atomic_order order && cross_thread
    then atomic (store_inst m.addr value order)
    else plain (store m)
classify (other_raw i) = i
