-- ===== src/Clock/Entry.antt =====
-- What a vector clock says of a thread, also past its end, and when its entries are well formed.
use embed_sanitizer.Common.{
  ℕ, ◌+◌, ◌*◌, ◌^◌, ◌≤◌, ◌<◌, ◌≡◌, ◌==◌, max, false, length, get_or, set, get_or-set, eqb→eq,
  Bool-cases, inl, inr, arith, leb,
}
use embed_sanitizer.Clock.{VectorClock, shl24, smax, sle, tid_of, clock_of}

-- A clock that is too short is later extended by zero clocks, so an absent entry is a zero clock.
abbrev pub entry : VectorClock → ℕ → ℕ
entry c i = get_or c i (shl24 i)

-- The largest number of entries for which no epoch of a thread is `read_shared`.
abbrev pub max_tid : ℕ
max_tid = 0xef

-- The pattern `x` is an epoch of thread `i`.
pub record IsEpoch (i x : ℕ) : Type 0 where
  pub low : i * 2 ^ 24 ≤ x
  pub high : x < i * 2 ^ 24 + 2 ^ 24

pub record IsClock (c : VectorClock) : Type 0 where
  pub short : length c ≤ max_tid
  pub entries : (i : ℕ) → i < max_tid → IsEpoch i (entry c i)

pub smax-max : (i a b : ℕ) → i < max_tid → IsEpoch i a → IsEpoch i b → smax a b ≡ max a b
smax-max i a b h p q = ground arith

pub sle-leb : (i a b : ℕ) → i < max_tid → IsEpoch i a → IsEpoch i b → sle a b ≡ leb a b
sle-leb i a b h p q = ground arith

pub tid_of-IsEpoch : (i x : ℕ) → i < max_tid → IsEpoch i x → tid_of x ≡ i
tid_of-IsEpoch i x h p = omega arith

pub clock_of-IsEpoch : (i x : ℕ) → i < max_tid → IsEpoch i x → clock_of x + i * 2 ^ 24 ≡ x
clock_of-IsEpoch i x h p = omega arith

pub shl24-IsEpoch : (i : ℕ) → i < max_tid → IsEpoch i (shl24 i)
shl24-IsEpoch i h = omega arith

pub entry-set_self : (c : VectorClock) (p e : ℕ) → p < length c → entry (set c p e) p ≡ e
entry-set_self c p e h = ground (arith, get_or-set c p p e (shl24 p) h)

pub entry-set_other :
    (c : VectorClock) (p e u : ℕ)
    → p < length c
    → (p == u) ≡ false
    → entry (set c p e) u ≡ entry c u
entry-set_other c p e u h ne = ground (arith, get_or-set c p u e (shl24 u) h)

-- What holds of a new entry and of the old ones holds of all.
pub entry-set_elim {ℓ} :
    (P : ℕ → Type ℓ) (c : VectorClock) (p e u : ℕ)
    → p < length c
    → (p ≡ u → P e)
    → P (entry c u)
    → P (entry (set c p e) u)
entry-set_elim P c p e u h new old = elim (Bool-cases (p == u)) [
  | inl here ↦ let same = eqb→eq p u here in rw (get_or-set c p u e (shl24 u) h, here) (new same)
  | inr other ↦ rw (entry-set_other c p e u h other) old
]
