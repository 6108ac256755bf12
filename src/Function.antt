-- ===== src/Function.antt =====
-- `runOnFunction` in llvm/lib/Transforms/Instrumentation/ThreadSanitizer.cpp: all that the pass adds
-- to a function.
pub mod Counted
pub mod Framed
use embed_sanitizer.Common.{
  ℕ, Bool, true, false, not, ◌&&◌, ◌||◌, Option, none, some, List, [], ◌∷◌, ◌++◌, map, Run, ok,
  failed_assert, ◌>>=◌, guard, if◌then◌else◌,
}
use embed_sanitizer.Report.{Text, codes, text_eq}
use embed_sanitizer.Names.{get_func_name_str}
use embed_sanitizer.Ir.{
  Llvm, MemInst, AtomicInst, MemIntrinsic, mem_set, mem_cpy, mem_move, RawInst, classify,
}
use embed_sanitizer.Access.{AccessCall, instrument_load_or_store}
use embed_sanitizer.Atomic.{AtomicCall, instrument_atomic}
use embed_sanitizer.Pass.{SyncCallback, Collected, collect}

-- The options `-tsan-instrument-...`.
pub record Options : Type 0 where
  pub memory_accesses : Bool
  pub func_entry_exit : Bool
  pub atomics : Bool
  pub mem_intrinsics : Bool

-- All are on where the command line says nothing.
abbrev pub default_options : Options
default_options = record {
  memory_accesses = true;
  func_entry_exit = true;
  atomics = true;
  mem_intrinsics = true;
}

-- A function: whether it is the constructor that `doInitialization` made, its name, the attributes
-- `SanitizeThread` and `sanitize_thread_no_checking_at_run_time`, and its blocks.
pub record Function : Type 0 where
  pub is_ctor : Bool
  pub name : Text
  pub sanitize_thread : Bool
  pub no_checking : Bool
  pub blocks : List (List RawInst)

-- The calls at the entry of a function and at each of its exits.
pub data FrameCall : Type 0 where
  ignore_begin ignore_end : FrameCall
  func_entry func_exit main_func_exit : Text → FrameCall

-- What is added to a function, each list in the order in which the calls are made up.
pub record Instrumented : Type 0 where
  pub res : Bool
  pub accesses : List AccessCall
  pub atomic_calls : List AtomicCall
  pub mem_calls : List Text
  pub syncs : List (SyncCallback × Bool × ℕ)
  pub at_entry : List FrameCall
  pub at_exits : List FrameCall

abbrev pub untouched : Instrumented
untouched = record {
  res = false;
  accesses = [];
  atomic_calls = [];
  mem_calls = [];
  syncs = [];
  at_entry = [];
  at_exits = [];
}

-- `instrumentMemIntrinsic`: the function that is called in the intrinsic's place.
unfoldable pub instrument_mem_intrinsic : MemIntrinsic → Text
instrument_mem_intrinsic mem_set = codes "memset"
instrument_mem_intrinsic mem_cpy = codes "memcpy"
instrument_mem_intrinsic mem_move = codes "memmove"

-- The calls that were made, of those that might have been.
unfoldable pub made {ℓ} : {A : Type ℓ} → Option A → List A → List A
made none rest = rest
made (some call) rest = call ∷ rest

unfoldable pub instrument_accesses : Llvm → List MemInst → List AccessCall
unfolding made
instrument_accesses ir [] = []
instrument_accesses ir (i ∷ rest) =
    made (instrument_load_or_store ir i) (instrument_accesses ir rest)

unfoldable pub instrument_atomics : Llvm → List AtomicInst → Run (List AtomicCall)
unfolding made
instrument_atomics ir [] = ok []
instrument_atomics ir (i ∷ rest) = do
  call ← instrument_atomic ir i
  calls ← instrument_atomics ir rest
  ok (made call calls)

-- `Res |= ...` over the calls that were made.
abbrev pub any_made {ℓ} : {A : Type ℓ} → List A → Bool
any_made [] = false
any_made (_ ∷ _) = true

abbrev pub nothing_collected : Collected
nothing_collected = record {
  all = [];
  local = [];
  atomics = [];
  mem_intrinsics = [];
  has_calls = false;
  syncs = [];
}

-- `InsertRuntimeIgnores`, where it is called.
unfoldable pub insert_runtime_ignores : Bool → List FrameCall × List FrameCall
insert_runtime_ignores true = (ignore_begin ∷ [], ignore_end ∷ [])
insert_runtime_ignores false = ([], [])

-- The callbacks at the entry and the exits of a function.
unfoldable pub frame_calls : Bool → Bool → Text → List FrameCall × List FrameCall
unfolding insert_runtime_ignores
frame_calls ignores frames func_name =
    let (begins, ends) = insert_runtime_ignores ignores in
    let main_exit : List FrameCall =
      if text_eq func_name (codes "main") then main_func_exit func_name ∷ [] else [] in
    if frames
    then (begins ++ func_entry func_name ∷ [], ends ++ func_exit func_name ∷ main_exit)
    else (begins, ends)

module _ (ir : Llvm) (demangle : Text → Option Text) (options : Options) where
  unfoldable pub run_on_function : Function → Run Instrumented
  unfolding collect instrument_accesses instrument_atomics frame_calls
  run_on_function f = if f.is_ctor then ok untouched else (do
    let c = collect ir (map (map classify) f.blocks) nothing_collected
    let accesses : List AccessCall =
        if options.memory_accesses && f.sanitize_thread then instrument_accesses ir c.all else []
    atomic_calls ← if options.atomics then instrument_atomics ir c.atomics else ok []
    let mem_calls : List Text =
        if options.mem_intrinsics && f.sanitize_thread
        then map instrument_mem_intrinsic c.mem_intrinsics
        else []
    guard (not (f.no_checking && f.sanitize_thread)) failed_assert do
      let res : Bool = any_made accesses || any_made atomic_calls
      let frames : Bool = (res || c.has_calls) && options.func_entry_exit
      let (at_entry, at_exits) =
          frame_calls (f.no_checking && c.has_calls) frames (get_func_name_str demangle f.name)
      ok (record {
        res = res || frames;
        accesses = accesses;
        atomic_calls = atomic_calls;
        mem_calls = mem_calls;
        syncs = c.syncs;
        at_entry = at_entry;
        at_exits = at_exits;
      }))
