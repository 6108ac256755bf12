-- ===== src/Report/Compare.antt =====
-- `race_compare` as the order of a `std::set`.
use embed_sanitizer.Common.{
  ◌^◌, ◌<◌, ◌≡◌, ◌≢◌, ◌⊎◌, inl, inr, refl, sym, true, false, [], ◌∷◌, arith, Bool-cases,
}
use embed_sanitizer.Report.{Text, text_eq, Race, race_compare}

text_eq_refl : (s : Text) → text_eq s s ≡ true
unfolding text_eq
text_eq_refl [] = refl
text_eq_refl (a ∷ s) = ground (arith, text_eq_refl s)

text_eq→eq : (s t : Text) → text_eq s t ≡ true → s ≡ t
unfolding text_eq
text_eq→eq [] [] h = refl
text_eq→eq [] (b ∷ t) h = cc
text_eq→eq (a ∷ s) [] h = cc
text_eq→eq (a ∷ s) (b ∷ t) h = ground (arith, text_eq→eq s t)

text_eq_ne : (s t : Text) → s ≢ t → text_eq s t ≡ false
text_eq_ne s t ne = elim (Bool-cases (text_eq s t)) [
  | inl same ↦ absurd (ne (text_eq→eq s t same))
  | inr other ↦ other
]

-- No race is before itself.
pub race_compare_irrefl : (r : Race) → race_compare r r ≡ false
unfolding race_compare
race_compare_irrefl r = ground (arith, text_eq_refl r.file_name, text_eq_refl r.access_type)

-- Two races of one file that differ in the line, an `int`, or in the access type are each before the
-- other.
pub race_compare-both :
    (a b : Race)
    → a.file_name ≡ b.file_name
    → a.line_no < 2 ^ 32
    → b.line_no < 2 ^ 32
    → (a.line_no ≢ b.line_no) ⊎ (a.access_type ≢ b.access_type)
    → (race_compare a b ≡ true) × (race_compare b a ≡ true)
unfolding race_compare
race_compare-both a b f la lb (inl ne) =
    let same : text_eq a.file_name b.file_name ≡ true = rw f (text_eq_refl b.file_name) in
    let same' : text_eq b.file_name a.file_name ≡ true = rw f (text_eq_refl b.file_name) in
    (ground arith, ground arith)
race_compare-both a b f la lb (inr ne) =
    let same : text_eq a.file_name b.file_name ≡ true = rw f (text_eq_refl b.file_name) in
    let same' : text_eq b.file_name a.file_name ≡ true = rw f (text_eq_refl b.file_name) in
    let other = text_eq_ne a.access_type b.access_type ne in
    let other' = text_eq_ne b.access_type a.access_type (λ e. ne (sym e)) in
    (ground arith, ground arith)
