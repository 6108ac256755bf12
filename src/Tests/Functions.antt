-- ===== src/Tests/Functions.antt =====
-- The theorems about what the pass makes of a function, and about the callbacks, at a concrete function.
use embed_sanitizer.Common.{◌≡◌, refl, true, false, Option, none, some, [], ◌∷◌, ok}
use embed_sanitizer.Report.{Text, codes}
use embed_sanitizer.Ir.{store, call, store_raw, other_raw, not_atomic, atomic, classify}
use embed_sanitizer.Access.{
  type_size, AccessCall, aligned, instrument_load_or_store, get_memory_access_func_index,
  count_trailing_zeros, is_vtable_access, line_argument,
}
use embed_sanitizer.Atomic.{
  AtomicCall, atomic_call, create_ordering, name_part, instrument_rmw, instrument_at,
  instrument_atomic,
}
use embed_sanitizer.Pass.{
  collect, collect_block, collect_inst, flush, choose, choose_loop, reverse,
  instr_if_synchronization,
}
use embed_sanitizer.Names.{starts_with, get_object_name, get_file_name}
use embed_sanitizer.Function.{Function}
use embed_sanitizer.Function.Framed.{AllHaveOrders, collected, Framed}
use embed_sanitizer.Callbacks.{access_callback}
use embed_sanitizer.Callbacks.Declared.{Offered, instrument_load_or_store-Offered}
use embed_sanitizer.Callbacks.Atomics.{is_declared, has_function, instrument_atomic-is_declared}
use embed_sanitizer.Tests.Instrument.{stack_and_heap, at_line, fetch_add}

-- `main` locks a mutex, writes to the heap and adds to an atomic counter.
abbrev pub main_function : Function
main_function = record {
  is_ctor = false;
  name = codes "main";
  sanitize_thread = true;
  no_checking = false;
  blocks =
      (other_raw (call (some (codes "pthread_mutex_lock")) 7 none)
        ∷ store_raw (at_line 2 12) 9 not_atomic true
        ∷ other_raw (atomic fetch_add)
        ∷ [])
      ∷ [];
}

abbrev pub no_demangler : Text → Option Text
no_demangler name = none

pub main-orders : AllHaveOrders (collected stack_and_heap main_function).atomics
unfolding collect collect_block collect_inst flush choose choose_loop reverse classify
    instr_if_synchronization starts_with
main-orders = (tt, tt)

abbrev store_call : AccessCall
store_call = record {
  callback = aligned true 2;
  addr = 2;
  line_no = 12;
  obj_name = codes "counter";
  file_name = codes "Unknown";
}

store_gets : instrument_load_or_store stack_and_heap (store (at_line 2 12)) ≡ some store_call
unfolding instrument_load_or_store get_memory_access_func_index count_trailing_zeros
    is_vtable_access line_argument get_object_name get_file_name type_size
store_gets = refl

instrument_load_or_store-Offered_example : Offered (access_callback (aligned true 2))
instrument_load_or_store-Offered_example =
    instrument_load_or_store-Offered stack_and_heap (store (at_line 2 12)) store_call store_gets

abbrev add_call : AtomicCall
add_call = atomic_call 2 (codes "_fetch_add") (2 ∷ 9 ∷ []) (5 ∷ [])

add_gets : instrument_atomic stack_and_heap fetch_add ≡ ok (some add_call)
unfolding instrument_atomic instrument_at instrument_rmw create_ordering name_part
    get_memory_access_func_index count_trailing_zeros type_size
add_gets = refl

instrument_atomic-is_declared_example :
    is_declared add_call.name ≡ has_function fetch_add (type_size stack_and_heap 2)
instrument_atomic-is_declared_example =
    instrument_atomic-is_declared stack_and_heap fetch_add add_call add_gets
