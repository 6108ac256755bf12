-- ===== src/FileDictionary.antt =====
-- The class FileDictionary of etsan/file_dictionary.h. A file name is kept by the address of its characters,
-- a module path by its text.
use embed_sanitizer.Common.{ℕ, Bool, false, ◌||◌, List, [], ◌∷◌, ◌==◌, if◌then◌else◌}
use embed_sanitizer.Report.{Text, text_eq}

pub record FileDictionary : Type 0 where
  pub module_paths : List Text
  pub files : List ℕ

-- `find(...) != end()`, in either set.
unfoldable pub has_file : ℕ → List ℕ → Bool
has_file file_name [] = false
has_file file_name (f ∷ rest) = (f == file_name) || has_file file_name rest

unfoldable pub has_path : Text → List Text → Bool
has_path path [] = false
has_path path (p ∷ rest) = text_eq p path || has_path path rest

unfoldable pub exists : ℕ → FileDictionary → Bool
unfolding has_file
exists file_name d = has_file file_name d.files

-- An element that a set holds is not inserted again.
unfoldable pub inser_file : ℕ → FileDictionary → FileDictionary
unfolding has_file
inser_file file_name d =
    if has_file file_name d.files then d else record d { files = file_name ∷ d.files }

unfoldable pub save_module : Text → FileDictionary → FileDictionary
unfolding has_path
save_module path d =
    if has_path path d.module_paths then d else record d { module_paths = path ∷ d.module_paths }
