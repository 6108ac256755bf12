-- ===== src/Trace/Gain.antt =====
-- How the knowledge of threads and locks changes when one entry of a table does.
use embed_sanitizer.Common.{
  ℕ, ◌≤◌, ◌≡◌, ◌∙◌, refl, sym, ap, Bool, ◌||◌, Bool-cases, inl, inr, some, List, lookup, insert,
  lookup-insert_cases, arith, ◌==◌, eqb→eq,
}
use embed_sanitizer.Clock.{VectorClock, tid_of}
use embed_sanitizer.State.{ThreadState}
use embed_sanitizer.Detector.{knows}
use embed_sanitizer.Trace.{either, at_key}
use embed_sanitizer.Trace.Knowledge.{
  thread_knows, lock_knows, thread_knows-found, thread_knows-insert, lock_knows-insert,
}

-- `Owned`, by the table of threads alone.
abbrev pub OwnedIn : List (ℕ × ThreadState) → ℕ → Type 0
OwnedIn m b = (k : ℕ) (t : ThreadState) → lookup k m ≡ some t → tid_of b ≡ t.tid → b ≤ t.epoch

pub insert-OwnedIn :
    (m : List (ℕ × ThreadState)) (self : ℕ) (t t' : ThreadState) (e : ℕ)
    → lookup self m ≡ some t
    → t'.tid ≡ t.tid
    → t.epoch ≤ t'.epoch
    → OwnedIn m e
    → OwnedIn (insert self t' m) e
insert-OwnedIn m self t t' e f same later owned k u g q =
    elim (lookup-insert_cases self k t' u m g) [
      | inl (a, b) ↦
          let own : e ≤ t.epoch =
            owned self t f (q ∙ sym (ap (λ (z : ThreadState). z.tid) b) ∙ same) in
          omega (arith, own, later, ap (λ (z : ThreadState). z.epoch) b)
      | inr (a, b) ↦ owned k u b q
    ]

-- A thread that gains knowledge, and one that gains none.
pub gain :
    (m : List (ℕ × ThreadState)) (self k e : ℕ) (t t' : ThreadState) (more : ℕ → Bool)
    → lookup self m ≡ some t
    → knows t'.c e ≡ (knows t.c e || more e)
    → thread_knows (insert self t' m) k e
      ≡ at_key self (either (thread_knows m self) more) (thread_knows m) k e
gain m self k e t t' more f h =
    let p = thread_knows-insert m self k e t' in
    let q = thread_knows-found m self e t f in
    elim (Bool-cases (self == k)) [ inl same ↦ p ∙ rw (same, q) h | inr other ↦ p ∙ rw other refl ]

pub no_gain :
    (m : List (ℕ × ThreadState)) (self k e : ℕ) (t t' : ThreadState)
    → lookup self m ≡ some t
    → knows t'.c e ≡ knows t.c e
    → thread_knows (insert self t' m) k e ≡ thread_knows m k e
no_gain m self k e t t' f h =
    let p = thread_knows-insert m self k e t' in
    elim (Bool-cases (self == k)) [
      | inl same ↦
          let q = thread_knows-found m self e t f in
          p ∙ rw (same, h, sym q) (ap (λ z. thread_knows m z e) (eqb→eq self k same))
      | inr other ↦ p ∙ rw other refl
    ]

pub same_lock :
    (m : List (ℕ × VectorClock)) (lock j e : ℕ) (l : VectorClock)
    → knows l e ≡ lock_knows m lock e
    → lock_knows (insert lock l m) j e ≡ lock_knows m j e
same_lock m lock j e l h =
    let p = lock_knows-insert m lock j e l in
    elim (Bool-cases (lock == j)) [
      | inl same ↦ p ∙ rw (same, h) (ap (λ z. lock_knows m z e) (eqb→eq lock j same))
      | inr other ↦ p ∙ rw other refl
    ]
