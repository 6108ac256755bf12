-- ===== src/Clock/Join.antt =====
-- The loops that join one vector clock into another, and that copy one: no access is out of range,
-- and every entry is the larger one, or the other clock's.
use embed_sanitizer.Common.{
  ℕ, zero, suc, ◌+◌, ◌≤◌, ◌≡◌, refl, max, Returns, length, set, length-set, get_or-set, get_or-out,
  at-get_or, put-set, arith, leb, ltb, ◌&&◌, if◌then◌else◌,
}
use embed_sanitizer.Clock.{VectorClock, shl24, smax, extend_vector_clocks, join_loop, copy_loop}
use embed_sanitizer.Clock.Extend.{length-extend_vector_clocks, entry-extend_vector_clocks}
use embed_sanitizer.Clock.Entry.{entry}

-- The entries of `r` from `lo` below `hi` are `f` of those of `a` and `b`, the others those of `a`.
record Combined (f : ℕ → ℕ → ℕ) (lo hi : ℕ) (a b r : VectorClock) : Type 0 where
  size : length r ≡ length a
  reads :
      (j : ℕ) → entry r j ≡ (if leb lo j && ltb j hi then f (entry a j) (entry b j) else entry a j)

join_loop-Combined :
    (n i : ℕ) (a b : VectorClock)
    → i + n ≤ length a
    → length a ≡ length b
    → Returns (join_loop n i a b) (Combined smax i (i + n) a b)
unfolding join_loop
join_loop-Combined zero i a b h e = (a, refl, record { size = refl; reads = λ j. ground arith })
join_loop-Combined (suc n) i a b h e =
    let v = smax (entry a i) (entry b i) in
    let (r, run, c) =
      join_loop-Combined n (suc i) (set a i v) b (omega (arith, length-set a i v))
        (omega (arith, length-set a i v)) in
    (
      r,
      rw
          (
            at-get_or a i (shl24 i) (omega arith),
            at-get_or b i (shl24 i) (omega arith),
            put-set a i v (omega arith),
          )
          run,
      record {
        size = omega (arith, c.size, length-set a i v);
        reads = λ j. ground (arith, c.reads j, get_or-set a i j v (shl24 j) (omega arith));
      },
    )

copy_loop-Combined :
    (n i : ℕ) (a b : VectorClock)
    → i + n ≤ length a
    → length a ≡ length b
    → Returns (copy_loop n i a b) (Combined (λ x y. y) i (i + n) a b)
unfolding copy_loop
copy_loop-Combined zero i a b h e = (a, refl, record { size = refl; reads = λ j. ground arith })
copy_loop-Combined (suc n) i a b h e =
    let v = entry b i in
    let (r, run, c) =
      copy_loop-Combined n (suc i) (set a i v) b (omega (arith, length-set a i v))
        (omega (arith, length-set a i v)) in
    (
      r,
      rw (at-get_or b i (shl24 i) (omega arith), put-set a i v (omega arith)) run,
      record {
        size = omega (arith, c.size, length-set a i v);
        reads = λ j. ground (arith, c.reads j, get_or-set a i j v (shl24 j) (omega arith));
      },
    )

-- Two clocks extended to one length and joined: no fault, and the larger entry for every thread.
pub record IsJoin (a b r : VectorClock) : Type 0 where
  pub size : length r ≡ max (length a) (length b)
  pub reads : (j : ℕ) → entry r j ≡ smax (entry a j) (entry b j)

pub join_loop-IsJoin :
    (a b a' b' : VectorClock) (n : ℕ)
    → length a' ≡ max (length a) (length b)
    → length b' ≡ max (length a) (length b)
    → n ≡ max (length a) (length b)
    → ((j : ℕ) → entry a' j ≡ entry a j)
    → ((j : ℕ) → entry b' j ≡ entry b j)
    → Returns (join_loop n 0 a' b') (IsJoin a b)
join_loop-IsJoin a b a' b' n p q e ha hb =
    let (r, run, c) = join_loop-Combined n 0 a' b' (omega arith) (omega arith) in
    (
      r,
      run,
      record {
        size = omega (arith, c.size);
        reads = λ j.
            ground
              (arith, c.reads j, ha j, hb j, get_or-out a' j (shl24 j), get_or-out b' j (shl24 j));
      },
    )

-- Two clocks extended to one length and the second copied over the first.
pub record IsCopy (a b r : VectorClock) : Type 0 where
  pub size : length r ≡ max (length a) (length b)
  pub reads : (j : ℕ) → entry r j ≡ entry b j

pub copy_loop-IsCopy :
    (a b : VectorClock)
    → Returns
        (copy_loop
          (length (extend_vector_clocks b a).1)
          0
          (extend_vector_clocks b a).1
          (extend_vector_clocks b a).0)
        (IsCopy a b)
copy_loop-IsCopy a b =
    let (b', a') = extend_vector_clocks b a in
    let l = length-extend_vector_clocks b a in
    let (r, run, c) = copy_loop-Combined (length a') 0 a' b' (omega arith) (omega arith) in
    (
      r,
      run,
      record {
        size = omega (arith, c.size);
        reads = λ j. ground (
          arith,
          c.reads j,
          entry-extend_vector_clocks b a j,
          get_or-out a' j (shl24 j),
          get_or-out b' j (shl24 j),
        );
      },
    )
