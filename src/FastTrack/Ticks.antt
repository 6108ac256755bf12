-- ===== src/FastTrack/Ticks.antt =====
-- Well-formed threads, and what an event leaves of their clocks: entries joined, or an epoch entered.
use embed_sanitizer.Common.{
  Bool-cases, inl, inr, ltb→lt, ltb→ge, get_or-out, ℕ, ◌+◌, ◌-◌, ◌*◌, ◌^◌, ◌≤◌, ◌<◌, ◌≡◌, ◌∙◌, refl,
  max, ok, length, get_or, set, at-get_or, put-set, get_or-set, length-set, arith, ltb, ◌==◌,
  if◌then◌else◌, not, eqb_refl, true,
}
use embed_sanitizer.Clock.{VectorClock, u32, shl24}
use embed_sanitizer.Clock.Entry.{entry, IsEpoch, IsClock, max_tid, smax-max}
use embed_sanitizer.Clock.Join.{IsJoin}
use embed_sanitizer.State.{ThreadState, update_epoch, increment}

-- The thread's own entry exists and is its epoch: the invariant that etsan/defs.h states.
pub record IsThread (t : ThreadState) : Type 0 where
  pub within : t.tid < length t.c
  pub clocks : IsClock t.c
  pub own : entry t.c t.tid ≡ t.epoch

-- The next increment stays within the thread's clock.
abbrev pub HasRoom : ThreadState → Type 0
HasRoom t = t.epoch + 1 < t.tid * 2 ^ 24 + 2 ^ 24

pub tid-lt : {t : ThreadState} → IsThread t → t.tid < max_tid
tid-lt v = omega (arith, v.within, v.clocks.short)

-- `t'` is `t` after its clock has taken the larger entries of `l`.
pub record Joined (t : ThreadState) (l : VectorClock) (t' : ThreadState) : Type 0 where
  pub valid : IsThread t'
  pub tid : t'.tid ≡ t.tid
  pub epoch : t'.epoch ≡ t.epoch
  pub size : length t'.c ≡ max (length t.c) (length l)
  pub reads : (j : ℕ) → entry t'.c j ≡ max (entry t.c j) (entry l j)

-- `t'` is `t` in its next epoch; `n` is the size of its clock.
pub record Ticked (t : ThreadState) (n : ℕ) (t' : ThreadState) : Type 0 where
  pub valid : IsThread t'
  pub tid : t'.tid ≡ t.tid
  pub epoch : t'.epoch ≡ t.epoch + 1
  pub size : length t'.c ≡ n
  pub reads : (j : ℕ) → entry t'.c j ≡ (if t.tid == j then t.epoch + 1 else entry t.c j)

pub update_epoch-ok :
    (t : ThreadState)
    → t.tid < length t.c
    → update_epoch t ≡ ok (record t { epoch = entry t.c t.tid })
unfolding update_epoch
update_epoch-ok t h = rw (at-get_or t.c t.tid (shl24 t.tid) h)

increment-ok :
    (t : ThreadState)
    → t.tid < length t.c
    → t.tid < max_tid
    → IsEpoch t.tid t.epoch
    → HasRoom t
    → increment t ≡ ok (record t { epoch = t.epoch + 1; c = set t.c t.tid (t.epoch + 1) })
unfolding increment
increment-ok t h b p room =
    let e = t.epoch + 1 in
    rw (
      (let g : not (t.epoch == 2 ^ 31 - 1) ≡ true = ground arith in g),
      (let u : u32 e ≡ e = omega arith in u),
      put-set t.c t.tid e h,
      at-get_or (set t.c t.tid e) t.tid e (omega (arith, length-set t.c t.tid e)),
      (let g : get_or (set t.c t.tid e) t.tid e ≡ e =
            ground (arith, get_or-set t.c t.tid t.tid e e h) in
          g),
      eqb_refl e,
    )

-- Past the threads that there may be, both clocks are zero.
join-larger :
    (a l c : VectorClock)
    → IsClock a
    → IsClock l
    → IsJoin a l c
    → (j : ℕ) → entry c j ≡ max (entry a j) (entry l j)
join-larger a l c v w join j = elim (Bool-cases (ltb j max_tid)) [
  | inl lt ↦
      let h = ltb→lt j max_tid lt in
      join.reads j ∙ smax-max j (entry a j) (entry l j) h (v.entries j h) (w.entries j h)
  | inr ge ↦
      let h = ltb→ge j max_tid ge in
      ground (
        arith,
        join.reads j,
        get_or-out a j (shl24 j) (omega (arith, v.short)),
        get_or-out l j (shl24 j) (omega (arith, w.short)),
      )
]

-- The clock `c` joins `t`'s with `l`, which knows no later epoch of `t`.
pub joined :
    (t : ThreadState) (l c : VectorClock)
    → IsThread t
    → IsClock l
    → entry l t.tid ≤ t.epoch
    → IsJoin t.c l c
    → Joined t l (record t { c = c; epoch = entry c t.tid })
joined t l c v w behind join =
    let larger = join-larger t.c l c v.clocks w join in
    let own : entry c t.tid ≡ t.epoch = omega (arith, larger t.tid, v.own) in
    record {
      valid = record {
        within = omega (arith, join.size, v.within);
        clocks = record {
          short = omega (arith, join.size, v.clocks.short, w.short);
          entries = λ j h. omega (arith, larger j, v.clocks.entries j h, w.entries j h);
        };
        own = refl;
      };
      tid = refl;
      epoch = own;
      size = join.size;
      reads = larger;
    }

-- The clock `c` has `t`'s entries.
pub ticked :
    (t : ThreadState) (c : VectorClock)
    → IsThread t
    → HasRoom t
    → length t.c ≤ length c
    → length c ≤ max_tid
    → ((j : ℕ) → entry c j ≡ entry t.c j)
    → Ticked t (length c) (record t { epoch = t.epoch + 1; c = set c t.tid (t.epoch + 1) })
ticked t c v room longer short same =
    let e = t.epoch + 1 in
    let reads = λ (j : ℕ). get_or-set c t.tid j e (shl24 j) (omega (arith, v.within)) in
    record {
      valid = record {
        within = omega (arith, length-set c t.tid e, v.within);
        clocks = record {
          short = omega (arith, length-set c t.tid e);
          entries = λ j h. ground (
            arith,
            reads j,
            same j,
            v.clocks.entries j h,
            v.clocks.entries t.tid (tid-lt v),
            v.own,
          );
        };
        own = ground (arith, reads t.tid);
      };
      tid = refl;
      epoch = refl;
      size = length-set c t.tid e;
      reads = λ j. ground (arith, reads j, same j);
    }

pub tick-ok :
    (t : ThreadState) (c : VectorClock)
    → IsThread t
    → HasRoom t
    → length t.c ≤ length c
    → increment (record t { c = c })
      ≡ ok (record t { epoch = t.epoch + 1; c = set c t.tid (t.epoch + 1) })
tick-ok t c v room longer =
    let p = v.clocks.entries t.tid (tid-lt v) in
    increment-ok (record t { c = c }) (omega (arith, v.within)) (tid-lt v)
      (omega (arith, v.own, p.low, p.high)) room

-- A lock's clock `l'` that is `l`, perhaps longer.
pub record Same (l l' : VectorClock) : Type 0 where
  pub valid : IsClock l'
  pub reads : (j : ℕ) → entry l' j ≡ entry l j

pub same :
    (l l' : VectorClock)
    → IsClock l
    → length l' ≤ max_tid
    → ((j : ℕ) → entry l' j ≡ entry l j)
    → Same l l'
same l l' w short e = record {
  valid = record { short = short; entries = λ j h. rw (e j) (w.entries j h) };
  reads = e;
}
