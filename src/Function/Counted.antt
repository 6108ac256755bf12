-- ===== src/Function/Counted.antt =====
-- `runOnFunction` and the counters of the pass.
use embed_sanitizer.Common.{
  none, some, ℕ, ◌+◌, ◌≡◌, ◌∙◌, refl, ap, Bool, true, false, ◌&&◌, Option, List, [], ◌∷◌, ◌++◌,
  arith, length, length-append, Returns, if◌then◌else◌,
}
use embed_sanitizer.Report.{Text}
use mathlib.Core.List.{append-nil}
use embed_sanitizer.Pass.Select.{is_bad_size}
use embed_sanitizer.Ir.{AtomicInst, address_of, Llvm, MemInst, load, store, memory}
use embed_sanitizer.Access.{
  type_size, get_memory_access_func_index, AccessCall, instrument_load_or_store,
}
use embed_sanitizer.Pass.Counters.{
  count_atomic, count_atomics, Counter, count_collect, count_access, count_accesses,
}
use embed_sanitizer.Pass.Accounts.{eligible_of, collect-length}
use embed_sanitizer.Pass.Called.{counter_of, for_calls, for_calls-append, collect-for_calls}
use embed_sanitizer.Pass.Collect.{selected_of}
use embed_sanitizer.Function.{
  Options, default_options, Function, Instrumented, made, instrument_accesses, nothing_collected,
  run_on_function,
}
use embed_sanitizer.Function.Framed.{
  AllHaveOrders, sorted_blocks, collected, all-selected, run_on_function-Framed,
}

-- The counters that `runOnFunction` increments, in order.
unfoldable pub count_function : Llvm → Options → Function → List Counter
count_function ir options f =
    let c = collected ir f in
    if f.is_ctor
    then []
    else count_collect ir (sorted_blocks f) nothing_collected
      ++ ((if options.memory_accesses && f.sanitize_thread then count_accesses ir c.all else [])
          ++ (if options.atomics then count_atomics ir c.atomics else []))

-- The counters that stand for the calls, one for each call and in the same order.
abbrev pub counters_of : List AccessCall → List Counter
counters_of [] = []
counters_of (c ∷ rest) = counter_of c.callback ∷ counters_of rest

access-for_calls :
    (ir : Llvm) (i : MemInst) (rest : List AccessCall)
    → for_calls (count_access ir i) ++ counters_of rest
      ≡ counters_of (made (instrument_load_or_store ir i) rest)
unfolding count_access instrument_load_or_store made
access-for_calls ir (load m) rest = ground arith
access-for_calls ir (store m) rest = ground arith

accesses-for_calls :
    (ir : Llvm) (l : List MemInst)
    → for_calls (count_accesses ir l) ≡ counters_of (instrument_accesses ir l)
unfolding count_accesses instrument_accesses
accesses-for_calls ir [] = refl
accesses-for_calls ir (i ∷ rest) =
    for_calls-append (count_access ir i) (count_accesses ir rest)
    ∙ ap (λ z. for_calls (count_access ir i) ++ z) (accesses-for_calls ir rest)
    ∙ access-for_calls ir i (instrument_accesses ir rest)

-- The accesses to the operands that LLVM keeps in a register for Swift.
abbrev pub swift_errors : Llvm → List MemInst → ℕ
swift_errors ir [] = 0
swift_errors ir (i ∷ rest) =
    (if ir.is_swift_error (memory i).addr then 1 else 0) + swift_errors ir rest

access-length :
    (ir : Llvm) (i : MemInst)
    → length (count_access ir i) + (if ir.is_swift_error (memory i).addr then 1 else 0) ≡ 1
unfolding count_access
access-length ir i = ground arith

accesses-length :
    (ir : Llvm) (l : List MemInst) → length (count_accesses ir l) + swift_errors ir l ≡ length l
unfolding count_accesses
accesses-length ir [] = omega arith
accesses-length ir (i ∷ rest) = omega (
  arith,
  length-append (count_access ir i) (count_accesses ir rest),
  access-length ir i,
  accesses-length ir rest,
)

-- The atomic instructions on a value of a size that has no callback.
abbrev pub has_bad_size : Llvm → AtomicInst → Bool
has_bad_size ir i = elim (address_of i) [
  | none ↦ false
  | some addr ↦ is_bad_size (type_size ir addr)
]

abbrev pub bad_atomics : Llvm → List AtomicInst → ℕ
bad_atomics ir [] = 0
bad_atomics ir (i ∷ rest) = (if has_bad_size ir i then 1 else 0) + bad_atomics ir rest

atomic-length :
    (ir : Llvm) (i : AtomicInst) → length (count_atomic ir i) ≡ (if has_bad_size ir i then 1 else 0)
unfolding count_atomic get_memory_access_func_index
atomic-length ir i = ground arith

atomics-length : (ir : Llvm) (l : List AtomicInst) → length (count_atomics ir l) ≡ bad_atomics ir l
unfolding count_atomics
atomics-length ir [] = refl
atomics-length ir (i ∷ rest) = omega (
  arith,
  length-append (count_atomic ir i) (count_atomics ir rest),
  atomic-length ir i,
  atomics-length ir rest,
)

atomic-for_calls : (ir : Llvm) (i : AtomicInst) → for_calls (count_atomic ir i) ≡ []
unfolding count_atomic
atomic-for_calls ir i = ground arith

atomics-for_calls : (ir : Llvm) (l : List AtomicInst) → for_calls (count_atomics ir l) ≡ []
unfolding count_atomics
atomics-for_calls ir [] = refl
atomics-for_calls ir (i ∷ rest) =
    for_calls-append (count_atomic ir i) (count_atomics ir rest)
    ∙ rw (atomic-for_calls ir i) (atomics-for_calls ir rest)

-- What the counters of a function say of what was done to it.
pub record Counted (ir : Llvm) (f : Function) (counters : List Counter) (r : Instrumented)
    : Type 0 where
  pub calls : for_calls counters ≡ counters_of r.accesses
  pub total :
      length counters
        + (if f.sanitize_thread
            then swift_errors ir (selected_of ir (sorted_blocks f))
            else length (selected_of ir (sorted_blocks f)))
      ≡ eligible_of ir (sorted_blocks f) + bad_atomics ir (collected ir f).atomics

module _ (ir : Llvm) (f : Function) where
  -- The counters of what is gathered, the accesses that are selected, and the counters of these.
  gathered : List Counter
  gathered = count_collect ir (sorted_blocks f) nothing_collected

  chosen : List MemInst
  chosen = selected_of ir (sorted_blocks f)

  abbrev accesses_if : Bool → List Counter
  accesses_if sanitize = if sanitize then count_accesses ir chosen else []

  of_atomics : List Counter
  of_atomics = count_atomics ir (collected ir f).atomics

  counters-split :
      f.is_ctor ≡ false
      → count_function ir default_options f
        ≡ gathered ++ (accesses_if f.sanitize_thread ++ of_atomics)
  unfolding count_function gathered chosen of_atomics
  counters-split e = rw (e, all-selected ir f) refl

  accesses_if-for_calls :
      (sanitize : Bool)
      → for_calls (accesses_if sanitize)
        ≡ counters_of (if sanitize then instrument_accesses ir chosen else [])
  accesses_if-for_calls true = accesses-for_calls ir chosen
  accesses_if-for_calls false = refl

  calls_of :
      (sanitize : Bool)
      → for_calls (gathered ++ (accesses_if sanitize ++ of_atomics))
        ≡ counters_of (if sanitize then instrument_accesses ir chosen else [])
  unfolding gathered of_atomics
  calls_of sanitize =
      for_calls-append gathered (accesses_if sanitize ++ of_atomics)
      ∙ rw (collect-for_calls ir (sorted_blocks f) nothing_collected) (
          for_calls-append (accesses_if sanitize) of_atomics
          ∙ rw (atomics-for_calls ir (collected ir f).atomics)
              (append-nil (for_calls (accesses_if sanitize)) ∙ accesses_if-for_calls sanitize))

  gathered-length : length gathered + length chosen ≡ eligible_of ir (sorted_blocks f)
  unfolding gathered chosen
  gathered-length = omega (
    arith,
    collect-length ir (sorted_blocks f) nothing_collected refl,
    ap length (all-selected ir f),
  )

  accesses_if-length :
      (sanitize : Bool)
      → length (accesses_if sanitize) + (if sanitize then swift_errors ir chosen else length chosen)
        ≡ length chosen
  accesses_if-length true = accesses-length ir chosen
  accesses_if-length false = omega arith

  total_of :
      (sanitize : Bool)
      → length (gathered ++ (accesses_if sanitize ++ of_atomics))
          + (if sanitize then swift_errors ir chosen else length chosen)
        ≡ eligible_of ir (sorted_blocks f) + bad_atomics ir (collected ir f).atomics
  unfolding of_atomics
  total_of sanitize = omega (
    arith,
    gathered-length,
    accesses_if-length sanitize,
    atomics-length ir (collected ir f).atomics,
    length-append gathered (accesses_if sanitize ++ of_atomics),
    length-append (accesses_if sanitize) of_atomics,
  )

-- With the default options, for a function other than the constructor that is not both sanitized and
-- exempt and whose atomic instructions have orders that they may have, the pass ends. The counters of
-- reads, writes and virtual pointers are then incremented once for each call that is made for an
-- access, in the order of the calls. All counters together are incremented as often as there are
-- loads and stores that are not atomic and have an address that is not excluded, and atomic
-- instructions on a value of a size without a callback, but for those loads and stores that are
-- selected and that stand in a function that is not sanitized or have an operand that Swift keeps in
-- a register.
pub run_on_function-Counted :
    (ir : Llvm) (demangle : Text → Option Text) (f : Function)
    → f.is_ctor ≡ false
    → (f.no_checking && f.sanitize_thread) ≡ false
    → AllHaveOrders (collected ir f).atomics
    → Returns
        (run_on_function ir demangle default_options f)
        (Counted ir f (count_function ir default_options f))
unfolding chosen
run_on_function-Counted ir demangle f e checked orders =
    let (r, run, fr) = run_on_function-Framed ir demangle f e checked orders in
    let split = counters-split ir f e in
    (
      r,
      run,
      record {
        calls = rw (split, fr.accesses) (calls_of ir f f.sanitize_thread);
        total = rw split (total_of ir f f.sanitize_thread);
      },
    )
