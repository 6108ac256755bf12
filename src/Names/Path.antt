-- ===== src/Names/Path.antt =====
-- `createAbsoluteFileName`: the name that it returns, and when that is an absolute one.
use mathlib.Core.List.{append_assoc}
use embed_sanitizer.Common.{
  ◌∙◌, sym, ap, ◌≡◌, refl, inl, inr, true, false, ◌&&◌, Bool-cases, [], ◌∷◌, ◌++◌, arith,
  if◌then◌else◌, ◌==◌, eqb→eq,
}
use embed_sanitizer.Report.{Text, codes, text_eq}
use embed_sanitizer.Names.{
  starts_with, contains, char_at, last_char, drop, create_absolute_file_name,
}

abbrev pub IsAbsolute : Text → Type 0
IsAbsolute name = char_at name 0 ≡ b'/'

append-IsAbsolute : (dir rest : Text) → IsAbsolute dir → IsAbsolute (dir ++ rest)
unfolding char_at
append-IsAbsolute [] rest h = absurd (omega (arith, h))
append-IsAbsolute (a ∷ dir) rest h = h

-- A directory's name with one slash at its end, and a file's name without a leading `./`.
abbrev pub with_slash : Text → Text
with_slash dir = if last_char dir == b'/' then dir else dir ++ codes "/"

abbrev pub without_dot : Text → Text
without_dot file = if starts_with (codes "./") file then drop 2 file else file

with_slash-IsAbsolute : (dir : Text) → IsAbsolute dir → IsAbsolute (with_slash dir)
with_slash-IsAbsolute dir h = elim (Bool-cases (last_char dir == b'/')) [
  | inl y ↦ rw y h
  | inr n ↦ rw n (append-IsAbsolute dir (codes "/") h)
]

-- The test for a leading `./`, and what is behind the dot.
dot_slash :
    (file : Text)
    → ((char_at file 0 == b'.') && (char_at file 1 == b'/')) ≡ starts_with (codes "./") file
unfolding char_at starts_with
dot_slash [] = refl
dot_slash (a ∷ []) = ground arith
dot_slash (a ∷ b ∷ rest) = ground arith

behind_dot :
    (file : Text) → starts_with (codes "./") file ≡ true → drop 1 file ≡ codes "/" ++ drop 2 file
unfolding starts_with drop
behind_dot [] h = absurd cc
behind_dot (a ∷ []) h = absurd (ground arith)
behind_dot (a ∷ b ∷ rest) h = let q : b'/' ≡ b = ground arith in ap (λ z. z ∷ rest) (sym q)

-- What the branches for a relative name have in common.
behind :
    (dir file : Text)
    → (if starts_with (codes "./") file
        then (if last_char dir == b'/' then dir ++ drop 2 file else dir ++ drop 1 file)
        else if last_char dir == b'/'
        then dir ++ file
        else dir ++ codes "/" ++ file)
      ≡ with_slash dir ++ without_dot file
behind dir file = elim (Bool-cases (starts_with (codes "./") file)) [
  | inl dotted ↦ elim (Bool-cases (last_char dir == b'/')) [
    | inl slash ↦ rw (dotted, slash) refl
    | inr bare ↦
        rw (dotted, bare)
          (ap (λ z. dir ++ z) (behind_dot file dotted)
            ∙ sym (append_assoc dir (codes "/") (drop 2 file)))
  ]
  | inr plain ↦ elim (Bool-cases (last_char dir == b'/')) [
    | inl slash ↦ rw (plain, slash) refl
    | inr bare ↦ rw (plain, bare) refl
  ]
]

-- A file name that is not empty and does not contain the directory's name, which is not empty either,
-- stays as it is if it is an absolute one; otherwise it comes, without a leading `./`, behind the
-- directory's name and one slash. In an absolute directory the result is an absolute name.
pub create_absolute_file_name-joined :
    (dir_name file_name : Text)
    → text_eq dir_name [] ≡ false
    → text_eq file_name [] ≡ false
    → contains dir_name file_name ≡ false
    → (create_absolute_file_name dir_name file_name ≡ (
        if char_at file_name 0 == b'/'
        then file_name
        else with_slash dir_name ++ without_dot file_name))
      × (IsAbsolute dir_name → IsAbsolute (create_absolute_file_name dir_name file_name))
unfolding create_absolute_file_name
create_absolute_file_name-joined dir file d f free = elim (Bool-cases (char_at file 0 == b'/')) [
  | inl top ↦ rw (d, f, top) (refl, λ h. eqb→eq (char_at file 0) b'/' top)
  | inr nested ↦
      rw (d, f, nested, dot_slash file, free)
        (
          behind dir file,
          λ h.
              rw (behind dir file) (
                append-IsAbsolute (with_slash dir) (without_dot file)
                  (with_slash-IsAbsolute dir h)),
        )
]
