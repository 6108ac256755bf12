-- ===== src/Callbacks.antt =====
-- The functions that the pass calls, as `initializeCallbacks` in
-- llvm/lib/Transforms/Instrumentation/ThreadSanitizer.cpp and EmbedSanitizerExtension.h declare them,
-- and the functions that the runtime offers, as etsan/tsan_interface.h declares them.
pub mod Declared
pub mod Atomics
use embed_sanitizer.Common.{
  ℕ, zero, suc, ◌^◌, Bool, true, false, Option, none, some, List, [], ◌∷◌, ◌++◌, if◌then◌else◌,
}
use embed_sanitizer.Report.{Text, codes, text_eq, show_unsigned}
use embed_sanitizer.Ir.{MemIntrinsic, mem_set, mem_cpy, mem_move}
use embed_sanitizer.Access.{Callback, vptr_update, vptr_load, aligned, unaligned}
use embed_sanitizer.Pass.{SyncCallback, thread_create, thread_join, thread_lock, thread_unlock}
use embed_sanitizer.Function.{
  FrameCall, ignore_begin, ignore_end, func_entry, func_exit, main_func_exit,
}

-- A parameter is a pointer or an integer of some width.
pub data Param : Type 0 where
  pointer : Param
  int : (bits : ℕ) → Param

pub record Declaration : Type 0 where
  pub name : Text
  pub params : List Param

abbrev declare : Text → List Param → Declaration
declare name params = record { name = name; params = params }

-- `TsanRead`, `TsanWrite`, `TsanUnalignedRead`, `TsanUnalignedWrite`, by the size in bytes.
unfoldable pub access_name : Bool → Bool → ℕ → Text
access_name is_aligned is_write idx =
    codes "__tsan_"
    ++ ((if is_aligned then [] else codes "unaligned_")
        ++ ((if is_write then codes "write" else codes "read") ++ show_unsigned (2 ^ idx)))

-- `TsanVptrUpdate` and `TsanVptrLoad`
unfoldable pub vptr_callback : Bool → Declaration
vptr_callback true =
    declare (codes "__tsan_vptr_update") (pointer ∷ pointer ∷ int 8 ∷ pointer ∷ pointer ∷ [])
vptr_callback false = declare (codes "__tsan_vptr_read") (pointer ∷ int 8 ∷ pointer ∷ pointer ∷ [])

unfoldable pub access_callback : Callback → Declaration
unfolding access_name vptr_callback
access_callback (aligned is_write idx) =
    declare (access_name true is_write idx) (pointer ∷ int 8 ∷ pointer ∷ pointer ∷ [])
access_callback (unaligned is_write idx) =
    declare (access_name false is_write idx) (pointer ∷ int 8 ∷ pointer ∷ pointer ∷ [])
access_callback vptr_update = vptr_callback true
access_callback vptr_load = vptr_callback false

-- The four callbacks of `InstrIfSynchronization`.
unfoldable pub sync_callback : SyncCallback → Declaration
sync_callback thread_create = declare (codes "__tsan_thread_create") (pointer ∷ [])
sync_callback thread_join = declare (codes "__tsan_thread_join") (pointer ∷ [])
sync_callback thread_lock = declare (codes "__tsan_thread_lock") (pointer ∷ [])
sync_callback thread_unlock = declare (codes "__tsan_thread_unlock") (pointer ∷ [])

-- `TsanFuncEntry`, `TsanFuncExit`, `TsanMainFuncExit`, `TsanIgnoreBegin` and `TsanIgnoreEnd`.
unfoldable pub frame_callback : FrameCall → Declaration
frame_callback ignore_begin = declare (codes "__tsan_ignore_thread_begin") []
frame_callback ignore_end = declare (codes "__tsan_ignore_thread_end") []
frame_callback (func_entry name) = declare (codes "__tsan_func_entry") (pointer ∷ [])
frame_callback (func_exit name) = declare (codes "__tsan_func_exit") []
frame_callback (main_func_exit name) = declare (codes "__tsan_main_func_exit") []

-- `TsanAtomicThreadFence` and `TsanAtomicSignalFence`.
unfoldable pub fence_callback : Bool → Declaration
fence_callback single_thread =
    declare
      (if single_thread
        then codes "__tsan_atomic_signal_fence"
        else codes "__tsan_atomic_thread_fence")
      (int 32 ∷ [])

-- `MemmoveFn`, `MemcpyFn` and `MemsetFn`, where a pointer has `bits` bits.
unfoldable pub mem_callback : ℕ → MemIntrinsic → Declaration
mem_callback bits mem_move = declare (codes "memmove") (pointer ∷ pointer ∷ int bits ∷ [])
mem_callback bits mem_cpy = declare (codes "memcpy") (pointer ∷ pointer ∷ int bits ∷ [])
mem_callback bits mem_set = declare (codes "memset") (pointer ∷ int 32 ∷ int bits ∷ [])

-- The parameters of an access in the header: an address, a line, an object's name and a file's name.
abbrev access_params : List Param
access_params = pointer ∷ int 32 ∷ pointer ∷ pointer ∷ []

-- `__tsan_init` to `__tsan_write16`.
abbrev aligned_interface : List Declaration
aligned_interface =
    declare (codes "__tsan_init") []
    ∷ declare (codes "__tsan_main_func_exit") []
    ∷ declare (codes "__tsan_read1") access_params
    ∷ declare (codes "__tsan_read2") access_params
    ∷ declare (codes "__tsan_read4") access_params
    ∷ declare (codes "__tsan_read8") access_params
    ∷ declare (codes "__tsan_read16") access_params
    ∷ declare (codes "__tsan_write1") access_params
    ∷ declare (codes "__tsan_write2") access_params
    ∷ declare (codes "__tsan_write4") access_params
    ∷ declare (codes "__tsan_write8") access_params
    ∷ declare (codes "__tsan_write16") access_params
    ∷ []

-- `__tsan_func_entry` to `__tsan_vptr_read`.
abbrev event_interface : List Declaration
event_interface =
    declare (codes "__tsan_func_entry") (pointer ∷ [])
    ∷ declare (codes "__tsan_func_exit") (pointer ∷ [])
    ∷ declare (codes "__tsan_thread_create") (pointer ∷ [])
    ∷ declare (codes "__tsan_thread_join") (pointer ∷ [])
    ∷ declare (codes "__tsan_thread_lock") (pointer ∷ [])
    ∷ declare (codes "__tsan_thread_unlock") (pointer ∷ [])
    ∷ declare (codes "__tsan_vptr_update") (pointer ∷ pointer ∷ int 32 ∷ pointer ∷ pointer ∷ [])
    ∷ declare (codes "__tsan_vptr_read") access_params
    ∷ []

-- The atomic and the unaligned accesses. An `enum` has the width of an `int`.
abbrev other_interface : List Declaration
other_interface =
    declare (codes "__tsan_atomic8_load") (pointer ∷ int 32 ∷ [])
    ∷ declare (codes "__tsan_atomic16_load") (pointer ∷ int 32 ∷ [])
    ∷ declare (codes "__tsan_atomic32_load") (pointer ∷ int 32 ∷ [])
    ∷ declare (codes "__tsan_unaligned_read2") access_params
    ∷ declare (codes "__tsan_unaligned_read4") access_params
    ∷ declare (codes "__tsan_unaligned_read8") access_params
    ∷ declare (codes "__tsan_unaligned_read16") access_params
    ∷ declare (codes "__tsan_unaligned_write2") access_params
    ∷ declare (codes "__tsan_unaligned_write4") access_params
    ∷ declare (codes "__tsan_unaligned_write8") access_params
    ∷ declare (codes "__tsan_unaligned_write16") access_params
    ∷ declare (codes "__tsan_atomic32_fetch_add") (pointer ∷ int 8 ∷ int 32 ∷ [])
    ∷ []

-- etsan/tsan_interface.h
unfoldable pub tsan_interface : List Declaration
tsan_interface = aligned_interface ++ (event_interface ++ other_interface)

-- The parameters that a declaration of this name has.
unfoldable pub declared : Text → List Declaration → Option (List Param)
declared name [] = none
declared name (d ∷ rest) =
    let later = declared name rest in if text_eq d.name name then some d.params else later

-- The orders of `__tsan_memory_order`, which are numbered as they are listed.
pub data MemoryOrder : Type 0 where
  relaxed consume acquire release acq_rel seq_cst : MemoryOrder

unfoldable pub order_number : MemoryOrder → ℕ
order_number relaxed = 0
order_number consume = 1
order_number acquire = 2
order_number release = 3
order_number acq_rel = 4
order_number seq_cst = 5
