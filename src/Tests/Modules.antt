-- ===== src/Tests/Modules.antt =====
-- The initialisation of a module and the counters of the pass at a concrete module: `main` alone.
use embed_sanitizer.Common.{◌≡◌, refl, true, false, none, some, [], ◌∷◌, ◌++◌, Returns}
use embed_sanitizer.Report.{Text, codes}
use embed_sanitizer.Names.{starts_with}
use embed_sanitizer.Ir.{call, other_raw, classify}
use embed_sanitizer.Access.{
  type_size, get_memory_access_func_index, count_trailing_zeros, is_vtable_access,
}
use embed_sanitizer.Pass.{
  collect, collect_block, collect_inst, flush, choose, choose_loop, reverse, visit,
  should_instrument, is_target, is_not_captured, addr_points_to_constant_data,
  instr_if_synchronization,
}
use embed_sanitizer.Pass.Counters.{
  num_instrumented_writes, num_omitted_reads_before_write, num_omitted_non_captured, count_choose,
  count_choose_loop, count_visit, count_not_captured, count_constant_data, count_collect,
  count_block, count_inst, count_atomics, count_atomic, count_accesses, count_access,
}
use embed_sanitizer.Function.{Function, default_options, run_on_function}
use embed_sanitizer.Function.Counted.{Counted, count_function, run_on_function-Counted}
use embed_sanitizer.Module.{Module, ModuleUtils, do_initialization}
use embed_sanitizer.Tests.Instrument.{stack_and_heap, increments}
use embed_sanitizer.Tests.Functions.{main_function, main-orders, no_demangler}

run_on_function-Counted_example :
    Returns (run_on_function stack_and_heap no_demangler default_options main_function) (
      Counted stack_and_heap main_function
        (count_function stack_and_heap default_options main_function))
run_on_function-Counted_example =
    run_on_function-Counted stack_and_heap no_demangler main_function refl refl main-orders

-- The one write of `main` is counted.
main_counters :
    count_function stack_and_heap default_options main_function ≡ num_instrumented_writes ∷ []
unfolding count_function count_collect count_block count_inst count_choose count_choose_loop
    count_visit count_not_captured count_accesses count_access collect collect_block collect_inst
    flush choose choose_loop reverse visit should_instrument is_not_captured classify
    instr_if_synchronization starts_with get_memory_access_func_index count_trailing_zeros type_size
    count_atomics count_atomic is_vtable_access
main_counters = refl

-- The variable on the stack is counted, and the load that the store follows.
increments_counters :
    count_choose stack_and_heap increments
    ≡ num_omitted_non_captured ∷ num_omitted_reads_before_write ∷ []
unfolding count_choose count_choose_loop reverse count_visit count_not_captured count_constant_data
    visit should_instrument is_target is_not_captured addr_points_to_constant_data
increments_counters = refl

-- A constructor that calls the initialisation, by its name.
abbrev ctor_of : Text → Text → Function
ctor_of ctor_name init_name = record {
  is_ctor = false;
  name = ctor_name;
  sanitize_thread = false;
  no_checking = false;
  blocks = (other_raw (call (some init_name) 0 none) ∷ []) ∷ [];
}

abbrev utils : ModuleUtils
utils = record {
  create_ctor_and_init = λ m ctor_name init_name.
      (record m { functions = m.functions ++ (50, ctor_of ctor_name init_name) ∷ [] }, 50, 51);
  append_to_global_ctors =
      λ m f priority. record m { global_ctors = m.global_ctors ++ (f, priority) ∷ [] };
}

abbrev main_module : Module
main_module = record { functions = (1, main_function) ∷ []; global_ctors = [] }

-- The constructor is added, and it is to run first.
main_initialized : do_initialization utils main_module ≡ (
  record {
    functions =
        (1, main_function) ∷ (50, ctor_of (codes "tsan.module_ctor") (codes "__tsan_init")) ∷ [];
    global_ctors = (50, 0) ∷ [];
  },
  50,
  true,
)
unfolding do_initialization
main_initialized = refl
