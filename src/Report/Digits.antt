-- ===== src/Report/Digits.antt =====
-- The decimal digits that reports and statistics print.
use embed_sanitizer.Common.{
  ℕ, zero, suc, ◌+◌, ◌-◌, ◌*◌, ◌/◌, ◌%◌, ◌^◌, ◌<◌, ◌≡◌, ◌∙◌, ap, Bool-cases, inl, inr, [], ◌∷◌, ltb,
  arith,
}
use native.Mathlib.Numerals.{unary_clauses}
use embed_sanitizer.Report.{Text, digits_of, show_unsigned}

-- The number that digits stand for, after digits that stand for `v`.
unfoldable pub value_of : ℕ → Text → ℕ
value_of v [] = v
value_of v (d ∷ rest) = value_of (v * 10 + (d - b'0')) rest

one_digit : (n : ℕ) (acc : Text) → n < 10 → value_of 0 ((b'0' + n % 10) ∷ acc) ≡ value_of n acc
unfolding value_of
one_digit n acc h =
    ap (λ z. value_of z acc) (let q : 0 * 10 + ((b'0' + n % 10) - b'0') ≡ n = omega arith in q)

value_of-digits_of :
    (f n : ℕ) (acc : Text) → n < 10 ^ suc f → value_of 0 (digits_of f n acc) ≡ value_of n acc
unfolding digits_of value_of
value_of-digits_of zero n acc h = one_digit n acc h
value_of-digits_of (suc f) n acc h = elim (Bool-cases (ltb n 10)) [
  | inl small ↦ rw small (one_digit n acc (ground (arith, small)))
  | inr large ↦
      let q : n / 10 * 10 + ((b'0' + n % 10) - b'0') ≡ n = omega arith in
      rw large (
        value_of-digits_of f (n / 10) ((b'0' + n % 10) ∷ acc)
          (omega (arith, simp unary_clauses at h))
        ∙ ap (λ z. value_of z acc) q)
]

-- The digits that are printed for a number of 32 bits stand for it: the fuel for ten digits is enough.
value_of-show_unsigned : (n : ℕ) → n < 2 ^ 32 → value_of 0 (show_unsigned n) ≡ n
unfolding show_unsigned value_of
value_of-show_unsigned n h = value_of-digits_of 10 n [] (omega arith)
