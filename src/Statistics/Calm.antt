-- ===== src/Statistics/Calm.antt =====
-- No callback marks a variable as racy: the statistics never count a race.
use mathlib.Core.Path.{subst}
use embed_sanitizer.Common.{
  ℕ, suc, ◌≡◌, refl, false, ◌||◌, Bool-cases, inl, inr, none, some, some-inj, List, [], ◌∷◌, lookup,
  insert, length, ◌==◌, if◌then◌else◌, ok, ◌>>=◌, IfOk, IfOk-bind, IfOk-next, arith, put, at,
}
use embed_sanitizer.Clock.{tid_of, read_shared, sle, new_vector_clock}
use embed_sanitizer.State.{ThreadState, VarState}
use embed_sanitizer.FastTrack.{is_after, update_read, check_reads, ft_read, ft_write}
use embed_sanitizer.Statistics.{count_racy}

update_read-racy :
    (n : ℕ) (x : VarState) (t : ThreadState) → IfOk (update_read n x t) (λ x'. x'.racy ≡ x.racy)
unfolding update_read
update_read-racy n x t = elim (Bool-cases (x.r == read_shared)) [
  | inl shared ↦ rw shared (IfOk-next _ (put x.rvc t.tid t.epoch) _ (λ v. refl))
  | inr single ↦ rw single (
      IfOk-next _ (at t.c (tid_of x.r)) _ λ e. elim (Bool-cases (sle x.r e)) [
        | inl known ↦ rw known refl
        | inr unknown ↦
            let v = if length x.rvc == 0 then new_vector_clock x.rvc n else x.rvc in
            let keeps : VarState → Type 0 = λ x'. x'.racy ≡ x.racy in
            rw unknown (
              IfOk-next keeps (put v (tid_of x.r) x.r)
                (λ v. do v' ← put v t.tid t.epoch; ok (record x { rvc = v'; r = read_shared }))
                λ v.
                  IfOk-next keeps (put v t.tid t.epoch)
                    (λ v'. ok (record x { rvc = v'; r = read_shared })) (λ w. refl))
      ])
]

pub ft_read-racy :
    (n reads : ℕ) (x : VarState) (t : ThreadState)
    → IfOk (ft_read n reads x t) (λ a. a.var.racy ≡ x.racy)
unfolding ft_read
ft_read-racy n reads x t = elim (Bool-cases (x.racy || (x.r == t.epoch))) [
  | inl again ↦ rw again refl
  | inr first ↦ rw first (
      IfOk-next _ (is_after x.w t) _ λ race.
        IfOk-bind (λ x'. x'.racy ≡ x.racy) _ (update_read n x t) _ (update_read-racy n x t)
          (λ x' h. h))
]

pub ft_write-racy :
    (writes : ℕ) (x : VarState) (t : ThreadState)
    → IfOk (ft_write writes x t) (λ a. a.var.racy ≡ x.racy)
unfolding ft_write
ft_write-racy writes x t = elim (Bool-cases (x.racy || (x.w == t.epoch))) [
  | inl again ↦ rw again refl
  | inr first ↦
      rw first
        (IfOk-next _ (is_after x.w t) _ λ race. IfOk-next _ (check_reads x t race) _ (λ a. refl))
]

abbrev pub Calm : List (ℕ × VarState) → Type 0
Calm m = count_racy m ≡ 0

pub lookup-Calm :
    (k : ℕ) (x : VarState) (m : List (ℕ × VarState)) → Calm m → lookup k m ≡ some x → x.racy ≡ false
unfolding count_racy lookup
lookup-Calm k x [] h e = absurd (let z : none ≡ some x = e in cc)
lookup-Calm k x ((j, y) ∷ rest) h e = elim (Bool-cases y.racy) [
  | inl bad ↦ absurd (let z : suc (count_racy rest) ≡ 0 = rw bad at h in omega arith)
  | inr calm ↦
      let later : Calm rest = rw calm at h in
      elim (Bool-cases (j == k)) [
        | inl same ↦ let z : y ≡ x = some-inj (rw same at e) in subst (λ w. w.racy ≡ false) z calm
        | inr other ↦ lookup-Calm k x rest later (rw other at e)
      ]
]

pub insert-Calm :
    (k : ℕ) (x : VarState) (m : List (ℕ × VarState)) → Calm m → x.racy ≡ false → Calm (insert k x m)
unfolding count_racy insert
insert-Calm k x [] h e = rw e refl
insert-Calm k x ((j, y) ∷ rest) h e = elim (Bool-cases y.racy) [
  | inl bad ↦ absurd (let z : suc (count_racy rest) ≡ 0 = rw bad at h in omega arith)
  | inr calm ↦
      let later : Calm rest = rw calm at h in
      elim (Bool-cases (j == k)) [
        | inl same ↦ rw (same, e) later
        | inr other ↦ rw (other, calm) (insert-Calm k x rest later e)
      ]
]
