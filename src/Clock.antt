-- ===== src/Clock.antt =====
-- Epochs and vector clocks: the macros of etsan/defs.h and its functions on `VectorClock`.
-- A C++ `int` is its 32-bit pattern, a number below 2 ^ 32.
pub mod Entry
pub mod Extend
pub mod Join
use embed_sanitizer.Common.{
  ℕ, zero, suc, ◌+◌, ◌-◌, ◌*◌, ◌/◌, ◌%◌, ◌^◌, max, Bool, List, [], ◌∷◌, ◌++◌, Run, ok, ◌>>=◌,
  length, at, put, leb, if◌then◌else◌,
}

abbrev pub VectorClock : Type 0
VectorClock = List ℕ

abbrev pub u32 : ℕ → ℕ
u32 n = n % 2 ^ 32

-- `TID(x)`: `0xFF000000` is unsigned, so the shift brings in zeros.
abbrev pub tid_of : ℕ → ℕ
tid_of x = x / 2 ^ 24 % 2 ^ 8

-- `CLOCK(x)`
abbrev pub clock_of : ℕ → ℕ
clock_of x = x % 2 ^ 24

-- `x << 24` at 32 bits.
abbrev pub shl24 : ℕ → ℕ
shl24 x = u32 (x * 2 ^ 24)

abbrev pub read_shared : ℕ
read_shared = 0xefffffff

-- `a <= b` and `std::max(a, b)` on `int`: flipping the sign bit orders the patterns.
abbrev pub sle : ℕ → ℕ → Bool
sle a b = leb (u32 (a + 2 ^ 31)) (u32 (b + 2 ^ 31))

abbrev pub smax : ℕ → ℕ → ℕ
smax a b = if sle b a then a else b

-- `VC.resize(size)`: the elements past the new size go, and new ones are zero.
unfoldable pub resize : VectorClock → ℕ → VectorClock
resize vc zero = []
resize [] (suc n) = 0 ∷ resize [] n
resize (x ∷ xs) (suc n) = x ∷ resize xs n

-- The loop `VC[t] = (t << 24)`, from index `t` to the end.
unfoldable pub fill : VectorClock → ℕ → VectorClock
fill [] t = []
fill (x ∷ xs) t = shl24 t ∷ fill xs (suc t)

unfoldable pub new_vector_clock : VectorClock → ℕ → VectorClock
unfolding resize fill
new_vector_clock vc size = fill (resize vc size) 0

-- The loop of `ExtendVectorClock`, on the rounds that are left.
unfoldable pub push_epochs : ℕ → ℕ → VectorClock → VectorClock
push_epochs zero tid c = c
push_epochs (suc n) tid c = push_epochs n (suc tid) (c ++ shl24 tid ∷ [])

unfoldable pub extend_vector_clock : VectorClock → ℕ → VectorClock
unfolding push_epochs
extend_vector_clock c total = push_epochs (total - length c) (length c) c

unfoldable pub extend_vector_clocks : VectorClock → VectorClock → VectorClock × VectorClock
unfolding extend_vector_clock
extend_vector_clocks c1 c2 =
    let size = max (length c1) (length c2) in
    (extend_vector_clock c1 size, extend_vector_clock c2 size)

-- The loop `a[i] = std::max(a[i], b[i])`, from index `i` for the rounds that are left.
unfoldable pub join_loop : ℕ → ℕ → VectorClock → VectorClock → Run VectorClock
join_loop zero i a b = ok a
join_loop (suc n) i a b = do
  x ← at a i
  y ← at b i
  a' ← put a i (smax x y)
  join_loop n (suc i) a' b

-- The loop `a[i] = b[i]`.
unfoldable pub copy_loop : ℕ → ℕ → VectorClock → VectorClock → Run VectorClock
copy_loop zero i a b = ok a
copy_loop (suc n) i a b = do y ← at b i; a' ← put a i y; copy_loop n (suc i) a' b
