-- ===== src/Statistics.antt =====
-- What the runtime prints when the program ends: the destructors of `TS`, `VS` and `LS` in etsan/defs.h,
-- which run in the reverse order of the declarations.
pub mod Calm
pub mod Programs
use embed_sanitizer.Common.{ℕ, suc, Bool, true, false, List, [], ◌∷◌, ◌++◌, if◌then◌else◌}
use embed_sanitizer.State.{VarState, State}
use embed_sanitizer.Report.{Text, codes, show_unsigned, show_int}

-- `size()` of a table.
unfoldable pub table_size {ℓ} : {V : Type ℓ} → List (ℕ × V) → ℕ
table_size [] = 0
table_size (_ ∷ rest) = suc (table_size rest)

-- The loop of `~VStates` that counts.
unfoldable pub count_racy : List (ℕ × VarState) → ℕ
count_racy [] = 0
count_racy ((_, x) ∷ rest) = let later = count_racy rest in if x.racy then suc later else later

-- `printf` of a label and a number.
abbrev pub line_of : Text → Text → Text
line_of label number = label ++ number ++ codes "\n"

unfoldable pub print_threads : State → Text
unfolding table_size
print_threads s = line_of (codes "Threads: ") (show_unsigned (table_size s.threads))

unfoldable pub print_variables : State → Text
unfolding table_size count_racy
print_variables s =
    line_of (codes "Addresses: ") (show_unsigned (table_size s.vstates))
    ++ line_of (codes "Reads: ") (show_unsigned s.reads)
    ++ line_of (codes "Writes: ") (show_unsigned s.writes)
    ++ line_of (codes "Races: ") (show_int (count_racy s.vstates))

unfoldable pub print_locks : State → Text
unfolding table_size
print_locks s = line_of (codes "Locks: ") (show_unsigned (table_size s.locks))

unfoldable pub print_statistics : State → Text
unfolding print_threads print_variables print_locks
print_statistics s = print_locks s ++ print_variables s ++ print_threads s
