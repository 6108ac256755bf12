-- ===== src/Module.antt =====
-- `doInitialization` in llvm/lib/Transforms/Instrumentation/ThreadSanitizer.cpp.
use embed_sanitizer.Common.{ℕ, Bool, true, List}
use embed_sanitizer.Report.{Text, codes}
use embed_sanitizer.Function.{Function}

-- The functions that a module defines, by their numbers, and those that run before `main`, with their
-- priorities.
pub record Module : Type 0 where
  pub functions : List (ℕ × Function)
  pub global_ctors : List (ℕ × ℕ)

-- LLVM's utilities on modules; the first gives the numbers of the two functions too.
pub record ModuleUtils : Type 0 where
  pub create_ctor_and_init : Module → (ctor_name init_name : Text) → Module × ℕ × ℕ
  pub append_to_global_ctors : Module → (function priority : ℕ) → Module

-- The module after it, `TsanCtorFunction`, and what it returns. The type that it keeps in `IntptrTy` is
-- not modelled.
unfoldable pub do_initialization : ModuleUtils → Module → Module × ℕ × Bool
do_initialization utils m =
    let (m', ctor, init) =
      utils.create_ctor_and_init m (codes "tsan.module_ctor") (codes "__tsan_init") in
    (utils.append_to_global_ctors m' ctor 0, ctor, true)
