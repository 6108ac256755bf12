-- ===== src/Trace/Racing.antt =====
-- The first race of a program.
use mathlib.Core.Path.{subst}
use embed_sanitizer.Common.{
  ℕ, zero, suc, ◌<◌, ◌≡◌, ◌⊎◌, sym, true, false, Bool-cases, inl, inr, arith,
}
use embed_sanitizer.Trace.{Event, races, happen_all, is_race_free}
use embed_sanitizer.Trace.Faithful.{new_world}
use embed_sanitizer.Trace.Order.{prefix}
use embed_sanitizer.Trace.Quiet.{is_race_free-snoc}

-- The first event that races.
pub record FirstRace (tr : ℕ → Event) (c n : ℕ) : Type 0 where
  pub at : ℕ
  pub soon : at < n
  pub free : is_race_free (prefix tr at) (new_world c) ≡ true
  pub races_there :
      races (tr at).self (tr at).action (happen_all (prefix tr at) (new_world c)) ≡ true

pub first_race :
    (tr : ℕ → Event) (c n : ℕ) → is_race_free (prefix tr n) (new_world c) ≡ false → FirstRace tr c n
unfolding prefix is_race_free
first_race tr c zero h = absurd cc
first_race tr c (suc n) h =
    let split = is_race_free-snoc (prefix tr n) (tr n) (new_world c) in
    elim (Bool-cases (is_race_free (prefix tr n) (new_world c))) [
      | inr raced ↦
          let f = first_race tr c n raced in
          record {
            at = f.at;
            soon = omega (arith, f.soon);
            free = f.free;
            races_there = f.races_there;
          }
      | inl calm ↦ record {
        at = n;
        soon = omega arith;
        free = calm;
        races_there = ground (arith, split, calm, h);
      }
    ]

-- Without a race among the first `n` events, each comes after those that it is in conflict with.
pub race_free-calm :
    (tr : ℕ → Event) (c n j : ℕ)
    → is_race_free (prefix tr n) (new_world c) ≡ true
    → j < n
    → races (tr j).self (tr j).action (happen_all (prefix tr j) (new_world c)) ≡ false
unfolding prefix
race_free-calm tr c zero j free lt = absurd (omega arith)
race_free-calm tr c (suc n) j free lt =
    let split = is_race_free-snoc (prefix tr n) (tr n) (new_world c) in
    elim (last_or_before j n lt) [
      | inl e ↦
          let now : races (tr n).self (tr n).action (happen_all (prefix tr n) (new_world c))
              ≡ false =
            ground (arith, split, free) in
          subst
            (λ z. races (tr z).self (tr z).action (happen_all (prefix tr z) (new_world c)) ≡ false)
            (sym e) now
      | inr before ↦ race_free-calm tr c n j (ground (arith, split, free)) before
    ]
  where
    last_or_before : (i m : ℕ) → i < suc m → (i ≡ m) ⊎ (i < m)
    last_or_before i m h = ground arith
