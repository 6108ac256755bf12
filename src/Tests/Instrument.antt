-- ===== src/Tests/Instrument.antt =====
-- The theorems about the pass at concrete instructions and names.
use mathlib.Core.List.{Mem}
use embed_sanitizer.Common.{
  ℕ, ◌*◌, ◌^◌, ◌<◌, ◌≡◌, ◌⊎◌, refl, false, none, some, List, [], ◌∷◌, ◌++◌, ltb, ◌==◌,
  if◌then◌else◌,
}
use embed_sanitizer.Common.{Returns}
use embed_sanitizer.Ir.{
  Llvm, Memory, MemInst, load, store, Inst, plain, call, other, AtomicInst, rmw, add,
  sequentially_consistent,
}
use embed_sanitizer.Access.{type_size, get_memory_access_func_index, line_argument}
use embed_sanitizer.Pass.{
  SyncCallback, thread_unlock, instr_if_synchronization, Collected, choose, choose_loop, reverse,
  visit, should_instrument, is_target, is_not_captured, addr_points_to_constant_data, collect,
}
use embed_sanitizer.Atomic.{instrument_atomic}
use embed_sanitizer.Atomic.Replaced.{Outcome, instrument_atomic-Returns}
use embed_sanitizer.Common.{true}
use embed_sanitizer.Report.{codes, text_eq}
use embed_sanitizer.Names.{
  last_char, drop, starts_with, contains, char_at, create_absolute_file_name,
}
use embed_sanitizer.Names.Path.{
  IsAbsolute, with_slash, without_dot, create_absolute_file_name-joined,
}
use embed_sanitizer.Pass.Sync.{function_of, comes_after, instr_if_synchronization-cases}
use embed_sanitizer.Pass.Choose.{Omitted, choose-Omitted}
use embed_sanitizer.Pass.Collect.{selected_of, collect-selected}
use embed_sanitizer.Pass.Select.{IsAccessSize, get_memory_access_func_index-cases}

-- Address 1 is a 32-bit variable on the stack that is not captured, 2 a 32-bit one elsewhere, and
-- any other address is of 24 bits.
abbrev pub stack_and_heap : Llvm
stack_and_heap = record {
  strip_in_bounds_offsets = λ a. a;
  global = λ a. none;
  gep_operand = λ a. none;
  load_tag = λ a. none;
  address_space = λ a. 0;
  underlying_object = λ a. a;
  is_alloca = λ a. a == 1;
  may_be_captured = λ a. false;
  is_swift_error = λ a. false;
  store_size_in_bits = λ a. if ltb a 3 then 32 else 24;
  object_name = λ a. some (codes "counter");
  counters_section = codes "__llvm_prf_cnts";
}

abbrev pub at_line : ℕ → ℕ → Memory
at_line addr line = record {
  addr = addr;
  tag = none;
  alignment = 4;
  scope = none;
  line = some line;
}

abbrev pub increments : List MemInst
increments = load (at_line 2 300) ∷ store (at_line 2 300) ∷ load (at_line 1 301) ∷ []

-- The load that the store follows is left out, and so is the variable on the stack.
increments_choice : choose stack_and_heap increments [] ≡ store (at_line 2 300) ∷ []
unfolding choose choose_loop reverse visit should_instrument is_target is_not_captured
    addr_points_to_constant_data
increments_choice = refl

choose-Omitted_example :
    Mem (load (at_line 2 300)) (choose stack_and_heap increments [])
    ⊎ Omitted stack_and_heap
        (load (at_line 2 300))
        (store (at_line 2 300) ∷ load (at_line 1 301) ∷ [])
choose-Omitted_example =
    choose-Omitted stack_and_heap [] (store (at_line 2 300) ∷ load (at_line 1 301) ∷ []) []
      (load (at_line 2 300))

abbrev locked : List (List Inst)
locked =
    (plain (load (at_line 2 300))
      ∷ call (some (codes "pthread_mutex_lock")) 7 none
      ∷ plain (store (at_line 2 302))
      ∷ [])
    ∷ (plain (load (at_line 2 303)) ∷ other ∷ [])
    ∷ []

abbrev nothing : Collected
nothing = record {
  all = [];
  local = [];
  atomics = [];
  mem_intrinsics = [];
  has_calls = false;
  syncs = [];
}

collect-selected_example :
    ((collect stack_and_heap locked nothing).all ≡ [] ++ selected_of stack_and_heap locked)
    × ((collect stack_and_heap locked nothing).local ≡ [])
collect-selected_example = collect-selected stack_and_heap locked nothing refl

get_memory_access_func_index-cases_example :
    ((idx : ℕ) × (idx < 5)
      × (32 ≡ 8 * 2 ^ idx)
      × (get_memory_access_func_index stack_and_heap 2 ≡ some idx))
    ⊎ ((get_memory_access_func_index stack_and_heap 2 ≡ none) × (IsAccessSize 32 → ⊥))
unfolding type_size
get_memory_access_func_index-cases_example = get_memory_access_func_index-cases stack_and_heap 2

-- Line 300 is reported as line 44.
line_300 : line_argument (at_line 2 300) ≡ 44
unfolding line_argument
line_300 = refl

is_directory : text_eq (codes "/home/user") [] ≡ false
unfolding text_eq
is_directory = refl

is_name : text_eq (codes "./main.c") [] ≡ false
unfolding text_eq
is_name = refl

is_outside : contains (codes "/home/user") (codes "./main.c") ≡ false
unfolding contains starts_with
is_outside = refl

create_absolute_file_name-joined_example :
    (create_absolute_file_name (codes "/home/user") (codes "./main.c") ≡ (
      if char_at (codes "./main.c") 0 == b'/'
      then codes "./main.c"
      else with_slash (codes "/home/user") ++ without_dot (codes "./main.c")))
    × (IsAbsolute (codes "/home/user")
        → IsAbsolute (create_absolute_file_name (codes "/home/user") (codes "./main.c")))
create_absolute_file_name-joined_example =
    create_absolute_file_name-joined (codes "/home/user") (codes "./main.c") is_directory is_name
      is_outside

joined_main :
    with_slash (codes "/home/user") ++ without_dot (codes "./main.c") ≡ codes "/home/user/main.c"
unfolding last_char starts_with drop
joined_main = refl

-- In the root directory a name with a slash in it stays relative.
in_root : create_absolute_file_name (codes "/") (codes "src/main.c") ≡ codes "src/main.c"
unfolding create_absolute_file_name char_at contains starts_with text_eq
in_root = refl

abbrev pub fetch_add : AtomicInst
fetch_add = rmw add 2 9 sequentially_consistent

instrument_atomic-Returns_example :
    Returns (instrument_atomic stack_and_heap fetch_add) (Outcome stack_and_heap fetch_add)
instrument_atomic-Returns_example = instrument_atomic-Returns stack_and_heap fetch_add tt

instr_if_synchronization-cases_example :
    ((sync : SyncCallback) × (starts_with (function_of sync) (codes "pthread_mutex_unlock") ≡ true)
      × (instr_if_synchronization (some (codes "pthread_mutex_unlock")) 7
          ≡ some (sync, comes_after sync, 7)))
    ⊎ (((sync : SyncCallback)
          → starts_with (function_of sync) (codes "pthread_mutex_unlock") ≡ false)
        × (instr_if_synchronization (some (codes "pthread_mutex_unlock")) 7 ≡ none))
instr_if_synchronization-cases_example =
    instr_if_synchronization-cases (codes "pthread_mutex_unlock") 7

unlock_callback :
    instr_if_synchronization (some (codes "pthread_mutex_unlock")) 7
    ≡ some (thread_unlock, false, 7)
unfolding instr_if_synchronization starts_with
unlock_callback = refl
