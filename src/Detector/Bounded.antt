-- ===== src/Detector/Bounded.antt =====
-- What keeps the accesses within their vectors, raced or not.
use embed_sanitizer.Common.{
  ℕ, zero, suc, ◌+◌, ◌≤◌, ◌<◌, ◌≡◌, ◌≢◌, ◌⊎◌, ◌∙◌, refl, inl, inr, Bool, false, not, ◌||◌,
  Bool-cases, length, min, arith, ok, Returns, ◌==◌, if◌then◌else◌, eqb→eq, eqb→ne, at-get_or, ltb,
  get_or, put-set, length-set, set,
}
use embed_sanitizer.Clock.{
  VectorClock, u32, tid_of, clock_of, shl24, read_shared, sle, new_vector_clock,
}
use embed_sanitizer.Clock.Entry.{entry, max_tid}
use embed_sanitizer.Clock.Extend.{length-new_vector_clock}
use embed_sanitizer.State.{ThreadState, VarState}
use embed_sanitizer.FastTrack.{is_after, update_read, scan_reads, check_reads, ft_read, ft_write}

-- The epochs of a variable are of the `n` threads, and its vector is empty or has an entry for each.
pub record Bounded (n : ℕ) (x : VarState) : Type 0 where
  pub write : tid_of x.w < n
  pub read : x.r ≢ read_shared → tid_of x.r < n
  pub size : (length x.rvc ≡ 0) ⊎ (length x.rvc ≡ n)
  pub shared : x.r ≡ read_shared → length x.rvc ≡ n

is_after-Returns :
    (x : ℕ) (t : ThreadState) → tid_of x < length t.c → (b : Bool) × (is_after x t ≡ ok b)
unfolding is_after
is_after-Returns x t h = elim (Bool-cases (tid_of x == t.tid)) [
  | inl own ↦ (false, rw own refl)
  | inr other ↦ (
    ltb (clock_of (get_or t.c (tid_of x) 0)) (clock_of x),
    rw (other, at-get_or t.c (tid_of x) 0 h) refl,
  )
]

scan_reads-Returns :
    (n i : ℕ) (rvc c : VectorClock) (race : Bool)
    → i + n ≤ length rvc
    → i + n ≤ length c
    → (b : Bool) × (scan_reads n i rvc c race ≡ ok b)
unfolding scan_reads
scan_reads-Returns zero i rvc c race h k = (race, refl)
scan_reads-Returns (suc n) i rvc c race h k =
    let a = at-get_or rvc i 0 (omega arith) in
    let b = at-get_or c i 0 (omega arith) in
    let (r, run) =
      scan_reads-Returns n (suc i) rvc c (race || not (sle (get_or rvc i 0) (get_or c i 0)))
        (omega arith) (omega arith) in
    (r, rw (a, b) run)

module _ (n : ℕ) (x : VarState) (t : ThreadState) (b : Bounded n x) (few : n ≤ max_tid)
    (lt : t.tid < n) (wide : n ≤ length t.c) (own : tid_of t.epoch ≡ t.tid)
    (unshared : t.epoch ≢ read_shared) where
  update_read-Bounded : Returns (update_read n x t) (Bounded n)
  unfolding update_read
  update_read-Bounded = elim (Bool-cases (x.r == read_shared)) [
    | inl y ↦
        let q = b.shared (eqb→eq x.r read_shared y) in
        (
          record x { rvc = set x.rvc t.tid t.epoch },
          rw (y, put-set x.rvc t.tid t.epoch (omega arith)) refl,
          record {
            write = b.write;
            read = b.read;
            size = inr (length-set x.rvc t.tid t.epoch ∙ q);
            shared = λ _. length-set x.rvc t.tid t.epoch ∙ q;
          },
        )
    | inr y ↦
        let l = b.read (eqb→ne x.r read_shared y) in
        let e = entry t.c (tid_of x.r) in
        elim (Bool-cases (sle x.r e)) [
          | inl known ↦ (
            record x { r = t.epoch },
            rw (y, at-get_or t.c (tid_of x.r) (shl24 (tid_of x.r)) (omega arith), known) refl,
            record {
              write = b.write;
              read = λ _. omega arith;
              size = b.size;
              shared = λ z. absurd (unshared z);
            },
          )
          | inr unknown ↦
              let v : VectorClock = if length x.rvc == 0 then new_vector_clock x.rvc n else x.rvc in
              let full : length v ≡ n = full_size in
              let v1 = set v (tid_of x.r) x.r in
              let l1 : length v1 ≡ n = length-set v (tid_of x.r) x.r ∙ full in
              let l2 : length (set v1 t.tid t.epoch) ≡ n = length-set v1 t.tid t.epoch ∙ l1 in
              (
                record x { rvc = set v1 t.tid t.epoch; r = read_shared },
                rw
                    (
                      y,
                      at-get_or t.c (tid_of x.r) (shl24 (tid_of x.r)) (omega arith),
                      unknown,
                      put-set v (tid_of x.r) x.r (omega arith),
                      put-set v1 t.tid t.epoch (omega arith),
                    )
                    refl,
                record {
                  write = b.write;
                  read = λ z. absurd (z refl);
                  size = inr l2;
                  shared = λ _. l2;
                },
              )
        ]
  ]
    where
      full_size : length (if length x.rvc == 0 then new_vector_clock x.rvc n else x.rvc) ≡ n
      full_size = ground (arith, b.size, length-new_vector_clock x.rvc n)

  pub ft_read-Bounded : (reads : ℕ) → Returns (ft_read n reads x t) (λ a. Bounded n a.var)
  unfolding ft_read
  ft_read-Bounded reads = elim (Bool-cases (x.racy || (x.r == t.epoch))) [
    | inl again ↦ (record { is_racy = false; var = x; count = u32 (reads + 1) }, rw again refl, b)
    | inr first ↦
        let (race, run) = is_after-Returns x.w t (omega (arith, b.write)) in
        let (x', upd, b') = update_read-Bounded in
        (
          record { is_racy = race; var = x'; count = u32 (reads + 1) },
          rw (first, run, upd) refl,
          b',
        )
  ]

  check_reads-Returns :
      (race : Bool) → Returns (check_reads x t race) λ a. (tid_of a.1 < n) × (a.1 ≢ read_shared)
  unfolding check_reads
  check_reads-Returns race = elim (Bool-cases (x.r == read_shared)) [
    | inl y ↦
        let (race', run) =
          scan_reads-Returns (min (length x.rvc) (length t.c)) 0 x.rvc t.c race (omega arith)
            (omega arith) in
        ((race', shl24 (tid_of t.epoch)), rw (y, run) refl, (omega arith, omega arith))
    | inr y ↦
        let ne = eqb→ne x.r read_shared y in
        let (later, run) = is_after-Returns x.r t (omega (arith, b.read ne)) in
        ((race || later, x.r), rw (y, run) refl, (b.read ne, ne))
  ]

  pub ft_write-Bounded : (writes : ℕ) → Returns (ft_write writes x t) (λ a. Bounded n a.var)
  unfolding ft_write
  ft_write-Bounded writes = elim (Bool-cases (x.racy || (x.w == t.epoch))) [
    | inl again ↦ (record { is_racy = false; var = x; count = u32 (writes + 1) }, rw again refl, b)
    | inr first ↦
        let (race, run) = is_after-Returns x.w t (omega (arith, b.write)) in
        let ((race', r'), check, (low, ne)) = check_reads-Returns race in
        (
          record {
            is_racy = race';
            var = record x { r = r'; w = t.epoch };
            count = u32 (writes + 1);
          },
          rw (first, run, check) refl,
          record {
            write = omega arith;
            read = λ _. low;
            size = b.size;
            shared = λ z. absurd (ne z);
          },
        )
  ]
