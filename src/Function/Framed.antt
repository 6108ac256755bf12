-- ===== src/Function/Framed.antt =====
-- `runOnFunction`: what is instrumented, and that the call stack is kept wherever something is.
use embed_sanitizer.Common.{
  ◌≡◌, refl, Bool, true, false, ◌&&◌, ◌||◌, Option, List, [], ◌∷◌, map, arith, ok, Returns,
  if◌then◌else◌,
}
use embed_sanitizer.Access.{AccessCall}
use embed_sanitizer.Report.{Text, codes, text_eq}
use embed_sanitizer.Names.{get_func_name_str}
use embed_sanitizer.Ir.{Llvm, AtomicInst, Inst, classify}
use embed_sanitizer.Atomic.{AtomicCall}
use embed_sanitizer.Atomic.Replaced.{HasOrders, instrument_atomic-Returns}
use embed_sanitizer.Pass.{Collected, collect}
use embed_sanitizer.Pass.Collect.{selected_of, collect-selected}
use embed_sanitizer.Function.{
  default_options, Function, FrameCall, ignore_begin, func_entry, func_exit, main_func_exit,
  Instrumented, made, any_made, instrument_accesses, instrument_atomics, instrument_mem_intrinsic,
  nothing_collected, frame_calls, run_on_function,
}

abbrev pub AllHaveOrders : List AtomicInst → Type 0
AllHaveOrders [] = Unit
AllHaveOrders (i ∷ rest) = HasOrders i × AllHaveOrders rest

-- The instructions of a function, sorted.
abbrev pub sorted_blocks : Function → List (List Inst)
sorted_blocks f = map (map classify) f.blocks

abbrev pub collected : Llvm → Function → Collected
collected ir f = collect ir (sorted_blocks f) nothing_collected

-- The functions that calls at an entry note, those that calls at an exit note, whether an exit prints
-- the races, and whether an entry starts to ignore accesses.
abbrev pub entered : List FrameCall → List Text
entered [] = []
entered (func_entry name ∷ rest) = name ∷ entered rest
entered (_ ∷ rest) = entered rest

abbrev pub left : List FrameCall → List Text
left [] = []
left (func_exit name ∷ rest) = name ∷ left rest
left (_ ∷ rest) = left rest

abbrev pub has_report : List FrameCall → Bool
has_report [] = false
has_report (main_func_exit name ∷ rest) = true
has_report (_ ∷ rest) = has_report rest

abbrev pub ignores : List FrameCall → Bool
ignores [] = false
ignores (ignore_begin ∷ rest) = true
ignores (_ ∷ rest) = ignores rest

-- What is added to a function other than the constructor, with the default options.
pub record Framed (ir : Llvm) (demangle : Text → Option Text) (f : Function) (r : Instrumented)
    : Type 0 where
  pub accesses : r.accesses ≡ (
      if f.sanitize_thread then instrument_accesses ir (selected_of ir (sorted_blocks f)) else [])
  pub atomics : instrument_atomics ir (collected ir f).atomics ≡ ok r.atomic_calls
  pub syncs : r.syncs ≡ (collected ir f).syncs
  pub changed :
      r.res ≡ (any_made r.accesses || any_made r.atomic_calls || (collected ir f).has_calls)
  pub names_in : entered r.at_entry ≡ (if r.res then get_func_name_str demangle f.name ∷ [] else [])
  pub names_out : left r.at_exits ≡ (if r.res then get_func_name_str demangle f.name ∷ [] else [])
  pub printed :
      has_report r.at_exits ≡ (r.res && text_eq (get_func_name_str demangle f.name) (codes "main"))
  pub ignored : ignores r.at_entry ≡ (f.no_checking && (collected ir f).has_calls)

instrument_atomics-Returns :
    (ir : Llvm) (l : List AtomicInst)
    → AllHaveOrders l
    → (calls : List AtomicCall) × (instrument_atomics ir l ≡ ok calls)
unfolding instrument_atomics
instrument_atomics-Returns ir [] h = ([], refl)
instrument_atomics-Returns ir (i ∷ rest) (h, hs) =
    let (r, run, _) = instrument_atomic-Returns ir i h in
    let (calls, runs) = instrument_atomics-Returns ir rest hs in (made r calls, rw (run, runs) refl)

pub all-selected :
    (ir : Llvm) (f : Function) → (collected ir f).all ≡ selected_of ir (sorted_blocks f)
all-selected ir f = (collect-selected ir (sorted_blocks f) nothing_collected refl).0

-- The calls at the entry and the exits, whichever there are.
frame_calls-all :
    (skips frames : Bool) (name : Text)
    → let (at_entry, at_exits) = frame_calls skips frames name in
      (entered at_entry ≡ (if frames then name ∷ [] else []))
      × (left at_exits ≡ (if frames then name ∷ [] else []))
      × (has_report at_exits ≡ (frames && text_eq name (codes "main")))
      × (ignores at_entry ≡ skips)
unfolding frame_calls
frame_calls-all skips frames name = ground arith

and_true : (b : Bool) → (b && true) ≡ b
and_true true = refl
and_true false = refl

or_again : (a b : Bool) → (a || (a || b)) ≡ (a || b)
or_again true b = refl
or_again false b = refl

pub run_on_function-Framed :
    (ir : Llvm) (demangle : Text → Option Text) (f : Function)
    → f.is_ctor ≡ false
    → (f.no_checking && f.sanitize_thread) ≡ false
    → AllHaveOrders (collected ir f).atomics
    → Returns (run_on_function ir demangle default_options f) (Framed ir demangle f)
unfolding run_on_function
run_on_function-Framed ir demangle f e checked orders =
    let c = collected ir f in
    let (calls, run) = instrument_atomics-Returns ir c.atomics orders in
    let accesses : List AccessCall =
      if f.sanitize_thread then instrument_accesses ir c.all else [] in
    let made_any : Bool = any_made accesses || any_made calls in
    let res : Bool = made_any || c.has_calls in
    let name = get_func_name_str demangle f.name in
    (
      record {
        res = res;
        accesses = accesses;
        atomic_calls = calls;
        mem_calls = if f.sanitize_thread then map instrument_mem_intrinsic c.mem_intrinsics else [];
        syncs = c.syncs;
        at_entry = (frame_calls (f.no_checking && c.has_calls) res name).0;
        at_exits = (frame_calls (f.no_checking && c.has_calls) res name).1;
      },
      rw (e, run, checked, and_true (made_any || c.has_calls), or_again made_any c.has_calls) refl,
      record {
        accesses = rw (all-selected ir f) refl;
        atomics = run;
        syncs = refl;
        changed = refl;
        names_in = (frame_calls-all (f.no_checking && c.has_calls) res name).0;
        names_out = (frame_calls-all (f.no_checking && c.has_calls) res name).1;
        printed = (frame_calls-all (f.no_checking && c.has_calls) res name).2;
        ignored = (frame_calls-all (f.no_checking && c.has_calls) res name).3;
      },
    )
