-- ===== src/Clock/Extend.antt =====
-- `newVectorClock`, `ExtendVectorClock` and `ExtendVectorClocks`: sizes, and the entries kept.
use embed_sanitizer.Common.{
  ℕ, zero, suc, ◌+◌, ◌-◌, ◌≤◌, ◌≡◌, refl, max, [], ◌∷◌, ◌++◌, ◌∙◌, length, get_or, length-append,
  get_or-append, get_or-out, arith, ap,
}
use embed_sanitizer.Clock.{
  VectorClock, shl24, resize, fill, new_vector_clock, push_epochs, extend_vector_clock,
  extend_vector_clocks,
}
use embed_sanitizer.Clock.Entry.{entry, IsClock, max_tid, shl24-IsEpoch}

length-push_epochs : (n t : ℕ) (c : VectorClock) → length (push_epochs n t c) ≡ length c + n
unfolding push_epochs
length-push_epochs zero t c = omega arith
length-push_epochs (suc n) t c =
    omega (arith, length-push_epochs n (suc t) (c ++ shl24 t ∷ []), length-append c (shl24 t ∷ []))

entry-push_epochs :
    (n t : ℕ) (c : VectorClock) (i : ℕ) → length c ≡ t → entry (push_epochs n t c) i ≡ entry c i
unfolding push_epochs
entry-push_epochs zero t c i h = refl
entry-push_epochs (suc n) t c i h =
    entry-push_epochs n (suc t) (c ++ shl24 t ∷ []) i
      (omega (arith, length-append c (shl24 t ∷ [])))
    ∙ ground (arith, get_or-append c (shl24 t) (shl24 i) i, get_or-out c i (shl24 i))

pub length-extend_vector_clock :
    (c : VectorClock) (n : ℕ) → length (extend_vector_clock c n) ≡ max (length c) n
unfolding extend_vector_clock
length-extend_vector_clock c n = omega (arith, length-push_epochs (n - length c) (length c) c)

-- An extension changes no entry.
pub entry-extend_vector_clock :
    (c : VectorClock) (n i : ℕ) → entry (extend_vector_clock c n) i ≡ entry c i
unfolding extend_vector_clock
entry-extend_vector_clock c n i = entry-push_epochs (n - length c) (length c) c i refl

pub length-extend_vector_clocks :
    (a b : VectorClock)
    → (length (extend_vector_clocks a b).0 ≡ max (length a) (length b))
      × (length (extend_vector_clocks a b).1 ≡ max (length a) (length b))
unfolding extend_vector_clocks
length-extend_vector_clocks a b = omega (
  arith,
  length-extend_vector_clock a (max (length a) (length b)),
  length-extend_vector_clock b (max (length a) (length b)),
)

pub entry-extend_vector_clocks :
    (a b : VectorClock) (i : ℕ)
    → (entry (extend_vector_clocks a b).0 i ≡ entry a i)
      × (entry (extend_vector_clocks a b).1 i ≡ entry b i)
unfolding extend_vector_clocks
entry-extend_vector_clocks a b i =
    (entry-extend_vector_clock a _ i, entry-extend_vector_clock b _ i)

length-resize : (c : VectorClock) (n : ℕ) → length (resize c n) ≡ n
unfolding resize
length-resize c zero = refl
length-resize [] (suc n) = ap suc (length-resize [] n)
length-resize (x ∷ c) (suc n) = ap suc (length-resize c n)

length-fill : (c : VectorClock) (t : ℕ) → length (fill c t) ≡ length c
unfolding fill
length-fill [] t = refl
length-fill (x ∷ c) t = ap suc (length-fill c (suc t))

-- Element `i` of a filled vector, read with any default that is itself the epoch.
get_or-fill : (c : VectorClock) (t i k : ℕ) → k ≡ t + i → get_or (fill c t) i (shl24 k) ≡ shl24 k
unfolding fill get_or
get_or-fill [] t i k h = refl
get_or-fill (x ∷ c) t zero k h = omega arith
get_or-fill (x ∷ c) t (suc i) k h = get_or-fill c (suc t) i k (omega arith)

pub length-new_vector_clock : (c : VectorClock) (n : ℕ) → length (new_vector_clock c n) ≡ n
unfolding new_vector_clock
length-new_vector_clock c n = length-fill (resize c n) 0 ∙ length-resize c n

-- A new vector clock is zero for every thread, whatever the vector held.
pub entry-new_vector_clock : (c : VectorClock) (n i : ℕ) → entry (new_vector_clock c n) i ≡ shl24 i
unfolding new_vector_clock
entry-new_vector_clock c n i = get_or-fill (resize c n) 0 i i (omega arith)

pub extend_vector_clock-IsClock :
    (c : VectorClock) (n : ℕ) → n ≤ max_tid → IsClock c → IsClock (extend_vector_clock c n)
extend_vector_clock-IsClock c n h v = record {
  short = omega (arith, length-extend_vector_clock c n, v.short);
  entries = λ i l. rw (entry-extend_vector_clock c n i) (v.entries i l);
}

pub new_vector_clock-IsClock :
    (c : VectorClock) (n : ℕ) → n ≤ max_tid → IsClock (new_vector_clock c n)
new_vector_clock-IsClock c n h = record {
  short = omega (arith, length-new_vector_clock c n);
  entries = λ i l. rw (entry-new_vector_clock c n i) (shl24-IsEpoch i l);
}
