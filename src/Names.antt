-- ===== src/Names.antt =====
-- The names that the pass embeds in the program, llvm/lib/Transforms/Instrumentation/EmbedSanitizerDebugInfo.h,
-- and the tests on names that the pass makes.
pub mod Path
use embed_sanitizer.Common.{
  ℕ, zero, suc, Bool, true, false, ◌&&◌, ◌||◌, Option, none, some, List, [], ◌∷◌, ◌++◌, ◌==◌,
  if◌then◌else◌,
}
use embed_sanitizer.Report.{Text, codes, text_eq}

unfoldable pub starts_with : Text → Text → Bool
starts_with [] s = true
starts_with (a ∷ p) [] = false
starts_with (a ∷ p) (b ∷ s) = (a == b) && starts_with p s

unfoldable pub ends_with : Text → Text → Bool
ends_with p [] = text_eq p []
ends_with p (b ∷ s) = text_eq p (b ∷ s) || ends_with p s

-- `s.find(p) != npos`
unfoldable pub contains : Text → Text → Bool
contains p [] = starts_with p []
contains p (b ∷ s) = starts_with p (b ∷ s) || contains p s

-- `s[i]`, which is the null character at the end.
unfoldable pub char_at : Text → ℕ → ℕ
char_at [] i = 0
char_at (a ∷ s) zero = a
char_at (a ∷ s) (suc i) = char_at s i

unfoldable pub last_char : Text → ℕ
last_char [] = 0
last_char (a ∷ []) = a
last_char (a ∷ b ∷ s) = last_char (b ∷ s)

unfoldable pub drop : ℕ → Text → Text
drop zero s = s
drop (suc n) [] = []
drop (suc n) (a ∷ s) = drop n s

-- `createAbsoluteFileName`
unfoldable pub create_absolute_file_name : Text → Text → Text
create_absolute_file_name dir_name file_name =
    if text_eq dir_name [] || text_eq file_name []
    then file_name
    else if char_at file_name 0 == b'/'
    then file_name
    else if (char_at file_name 0 == b'.') && (char_at file_name 1 == b'/')
    then (if last_char dir_name == b'/'
        then dir_name ++ drop 2 file_name
        else dir_name ++ drop 1 file_name)
    else if contains dir_name file_name
    then file_name
    else if last_char dir_name == b'/'
    then dir_name ++ file_name
    else dir_name ++ codes "/" ++ file_name

-- The part of `getFuncName` and `getFuncNameStr` after the demangling: the name up to its first
-- parenthesis.
unfoldable pub get_func_name : Text → Text
get_func_name [] = []
get_func_name (a ∷ name) = let rest = get_func_name name in if a == b'(' then [] else a ∷ rest

-- `demangleName`: the C++ library's demangler gives a name or fails.
unfoldable pub demangle_name : (Text → Option Text) → Text → Text
demangle_name demangle name = elim (demangle name) [ none ↦ name | some plain ↦ plain ]

unfoldable pub get_func_name_str : (Text → Option Text) → Text → Text
unfolding demangle_name get_func_name
get_func_name_str demangle name = get_func_name (demangle_name demangle name)

-- `getFileName`, of a directory and a file where there is a debug location.
unfoldable pub get_file_name : Option (Text × Text) → Text
unfolding create_absolute_file_name
get_file_name none = codes "Unknown"
get_file_name (some (dir_name, file_name)) = create_absolute_file_name dir_name file_name

-- `getObjectName`, by the name of the object underlying the address.
unfoldable pub get_object_name : Option Text → Text
get_object_name none = codes "unknown"
get_object_name (some name) = name
