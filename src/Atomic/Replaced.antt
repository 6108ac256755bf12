-- ===== src/Atomic/Replaced.antt =====
-- `instrumentAtomic`: which instructions it replaces, and on how wide a value.
use embed_sanitizer.Common.{
  ℕ, ◌*◌, ◌^◌, ◌≤◌, ◌≡◌, ◌⊎◌, refl, sym, inl, inr, Option, none, some, some-inj, ap, List, [], ◌∷◌,
  Returns, arith, Option-cases,
}
use embed_sanitizer.Report.{codes}
use embed_sanitizer.Access.{type_size}
use embed_sanitizer.Ir.{
  Llvm, AtomicOrdering, not_atomic, unordered, monotonic, acquire, release, acquire_release,
  sequentially_consistent, BinOp, AtomicInst, load_inst, store_inst, rmw, cmp_xchg, fence,
  address_of,
}
use embed_sanitizer.Atomic.{
  create_ordering, name_part, AtomicCall, atomic_call, fence_call, instrument_rmw, instrument_at,
  instrument_atomic,
}
use embed_sanitizer.Pass.Select.{get_memory_access_func_index-cases, IsAccessSize}

-- An order that an atomic instruction may have.
abbrev pub IsAtomicOrder : AtomicOrdering → Type 0
IsAtomicOrder not_atomic = ⊥
IsAtomicOrder _ = Unit

abbrev pub HasOrders : AtomicInst → Type 0
HasOrders (load_inst addr order) = IsAtomicOrder order
HasOrders (store_inst addr value order) = IsAtomicOrder order
HasOrders (rmw op addr value order) = IsAtomicOrder order
HasOrders (cmp_xchg addr compare new success failure) =
    IsAtomicOrder success × IsAtomicOrder failure
HasOrders (fence single_thread order) = IsAtomicOrder order

-- An instruction stays as it is for the width of its value or for its operation.
pub data Left (ir : Llvm) (i : AtomicInst) : Type 0 where
  bad_size :
      (addr : ℕ) → address_of i ≡ some addr → (IsAccessSize (type_size ir addr) → ⊥) → Left ir i
  no_callback :
      (op : BinOp) (addr value : ℕ) (order : AtomicOrdering)
      → i ≡ rmw op addr value order
      → name_part op ≡ none
      → Left ir i

-- The values that the instruction has besides its address.
abbrev pub values_of : AtomicInst → List ℕ
values_of (load_inst addr order) = []
values_of (store_inst addr value order) = value ∷ []
values_of (rmw op addr value order) = value ∷ []
values_of (cmp_xchg addr compare new success failure) = compare ∷ new ∷ []
values_of (fence single_thread order) = []

-- A call on the address and the values, as wide as the one at the address, or a fence.
pub data Fits (ir : Llvm) (i : AtomicInst) (c : AtomicCall) : Type 0 where
  same_width :
      (addr : ℕ)
      → address_of i ≡ some addr
      → c.bits ≡ type_size ir addr
      → c.args ≡ addr ∷ values_of i
      → Fits ir i c
  no_address : address_of i ≡ none → c.args ≡ [] → Fits ir i c

create_ordering-Returns :
    (o : AtomicOrdering) → IsAtomicOrder o → Returns (create_ordering o) λ v. v ≤ 5
unfolding create_ordering
create_ordering-Returns not_atomic h = absurd h
create_ordering-Returns unordered h = (0, refl, omega arith)
create_ordering-Returns monotonic h = (0, refl, omega arith)
create_ordering-Returns acquire h = (2, refl, omega arith)
create_ordering-Returns release h = (3, refl, omega arith)
create_ordering-Returns acquire_release h = (4, refl, omega arith)
create_ordering-Returns sequentially_consistent h = (5, refl, omega arith)

abbrev pub Outcome : Llvm → AtomicInst → Option AtomicCall → Type 0
Outcome ir i r = ((r ≡ none) × Left ir i) ⊎ ((c : AtomicCall) × (r ≡ some c) × Fits ir i c)

instrument_at-Outcome :
    (ir : Llvm) (i : AtomicInst) (addr idx : ℕ)
    → HasOrders i
    → address_of i ≡ some addr
    → type_size ir addr ≡ 2 ^ idx * 8
    → Returns (instrument_at idx i) (Outcome ir i)
unfolding instrument_at instrument_rmw
instrument_at-Outcome ir (load_inst a order) addr idx h e w =
    let (o, run, _) = create_ordering-Returns order h in
    (
      some (atomic_call idx (codes "_load") (a ∷ []) (o ∷ [])),
      rw run refl,
      inr (_, refl, same_width addr e (sym w) (ap (λ z. z ∷ []) (some-inj e))),
    )
instrument_at-Outcome ir (store_inst a v order) addr idx h e w =
    let (o, run, _) = create_ordering-Returns order h in
    (
      some (atomic_call idx (codes "_store") (a ∷ v ∷ []) (o ∷ [])),
      rw run refl,
      inr (_, refl, same_width addr e (sym w) (ap (λ z. z ∷ v ∷ []) (some-inj e))),
    )
instrument_at-Outcome ir (cmp_xchg a x y success failure) addr idx h e w =
    let (o, run, _) = create_ordering-Returns success h.0 in
    let (p, run', _) = create_ordering-Returns failure h.1 in
    (
      some (atomic_call idx (codes "_compare_exchange_val") (a ∷ x ∷ y ∷ []) (o ∷ p ∷ [])),
      rw (run, run') refl,
      inr (_, refl, same_width addr e (sym w) (ap (λ z. z ∷ x ∷ y ∷ []) (some-inj e))),
    )
instrument_at-Outcome ir (fence s order) addr idx h e w = absurd cc
instrument_at-Outcome ir (rmw op a v order) addr idx h e w = elim (Option-cases (name_part op)) [
  | inl missing ↦
      (none, rw (missing, instrument_rmw) refl, inl (refl, no_callback op a v order refl missing))
  | inr (part, found) ↦
      let (o, run, _) = create_ordering-Returns order h in
      (
        some (atomic_call idx part (a ∷ v ∷ []) (o ∷ [])),
        rw (found, instrument_rmw, run) refl,
        inr (_, refl, same_width addr e (sym w) (ap (λ z. z ∷ v ∷ []) (some-inj e))),
      )
]

fence-Outcome :
    (ir : Llvm) (i : AtomicInst)
    → HasOrders i
    → address_of i ≡ none
    → Returns (instrument_at 0 i) (Outcome ir i)
unfolding instrument_at
fence-Outcome ir (load_inst a order) h e = absurd cc
fence-Outcome ir (store_inst a v order) h e = absurd cc
fence-Outcome ir (rmw op a v order) h e = absurd cc
fence-Outcome ir (cmp_xchg a x y success failure) h e = absurd cc
fence-Outcome ir (fence s order) h e =
    let (o, run, _) = create_ordering-Returns order h in
    (
      some (fence_call s (o ∷ [])),
      rw run refl,
      inr (fence_call s (o ∷ []), refl, no_address e refl),
    )

-- An atomic instruction with the orders that one may have is never met with code that is not to be
-- reached. It stays as it is if its value has no callback of its width or its operation has none,
-- and otherwise a call takes its place on the same address and values, cast to the width of the value at
-- the address, a number of 32 bits.
pub instrument_atomic-Returns :
    (ir : Llvm) (i : AtomicInst) → HasOrders i → Returns (instrument_atomic ir i) (Outcome ir i)
unfolding instrument_atomic
instrument_atomic-Returns ir i h = elim (Option-cases (address_of i)) [
  | inl e ↦ let (r, run, out) = fence-Outcome ir i h e in (r, rw (e, instrument_atomic) run, out)
  | inr (addr, e) ↦ elim (get_memory_access_func_index-cases ir addr) [
    | inl (idx, lt, w, q) ↦
        let (r, run, out) = instrument_at-Outcome ir i addr idx h e (omega (arith, w)) in
        (r, rw (e, instrument_atomic, q) run, out)
    | inr (q, bad) ↦ (none, rw (e, instrument_atomic, q) refl, inl (refl, bad_size addr e bad))
  ]
]
