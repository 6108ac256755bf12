-- ===== src/Access.antt =====
-- The callback of a load or a store: `getMemoryAccessFuncIndex` and `instrumentLoadOrStore` in
-- llvm/lib/Transforms/Instrumentation/ThreadSanitizer.cpp.
use embed_sanitizer.Common.{
  ℕ, zero, suc, ◌/◌, ◌%◌, ◌^◌, Bool, false, not, ◌&&◌, ◌||◌, Option, none, some, ltb, ◌==◌,
  if◌then◌else◌,
}
use embed_sanitizer.Report.{Text}
use embed_sanitizer.Names.{get_file_name, get_object_name}
use embed_sanitizer.Ir.{Llvm, Memory, MemInst, memory, is_write}

-- `isVtableAccess`
unfoldable pub is_vtable_access : Option Bool → Bool
is_vtable_access none = false
is_vtable_access (some is_vtable) = is_vtable

-- `countTrailingZeros`, for numbers below 2 ^ fuel.
unfoldable pub count_trailing_zeros : ℕ → ℕ → ℕ
count_trailing_zeros zero n = 0
count_trailing_zeros (suc fuel) n =
    let rest = count_trailing_zeros fuel (n / 2) in if n % 2 == 1 then 0 else suc rest

-- `uint32_t TypeSize = DL.getTypeStoreSizeInBits(OrigTy)`: the size is cut to 32 bits.
unfoldable pub type_size : Llvm → ℕ → ℕ
type_size ir addr = ir.store_size_in_bits addr % 2 ^ 32

-- `getMemoryAccessFuncIndex`: none for -1.
unfoldable pub get_memory_access_func_index : Llvm → ℕ → Option ℕ
unfolding count_trailing_zeros
get_memory_access_func_index ir addr =
    let size = type_size ir addr in
    if not (size == 8)
      && not (size == 16)
      && not (size == 32)
      && not (size == 64)
      && not (size == 128)
    then none
    else some (count_trailing_zeros 32 (size / 8))

-- The callback for an access.
pub data Callback : Type 0 where
  vptr_update vptr_load : Callback
  aligned unaligned : (is_write : Bool) (idx : ℕ) → Callback

-- `getLineNumber`
abbrev pub get_line_number : Option ℕ → ℕ
get_line_number none = 0
get_line_number (some line) = line

-- `IRB.CreateIntCast(getLineNumber(I), IRB.getInt8Ty(), false)`
unfoldable pub line_argument : Memory → ℕ
line_argument m = get_line_number m.line % 2 ^ 8

-- The call of a callback: `lineNo`, `objName` and `fileName` are its last three arguments.
pub record AccessCall : Type 0 where
  pub callback : Callback
  pub addr : ℕ
  pub line_no : ℕ
  pub obj_name : Text
  pub file_name : Text

-- The callback that `instrumentLoadOrStore` makes; it changes nothing when it makes none.
unfoldable pub instrument_load_or_store : Llvm → MemInst → Option AccessCall
unfolding is_vtable_access line_argument
instrument_load_or_store ir i =
    let m = memory i in
    let size = type_size ir m.addr in
    if ir.is_swift_error m.addr then none else elim (get_memory_access_func_index ir m.addr) [
      | none ↦ none
      | some idx ↦
          let callback : Callback =
            if is_vtable_access m.tag
            then (if is_write i then vptr_update else vptr_load)
            else if (m.alignment == 0) || not (ltb m.alignment 8) || (m.alignment % (size / 8) == 0)
            then aligned (is_write i) idx
            else unaligned (is_write i) idx in
          some (record {
            callback = callback;
            addr = m.addr;
            line_no = line_argument m;
            obj_name = get_object_name (ir.object_name m.addr);
            file_name = get_file_name m.scope;
          })
    ]
