-- ===== src/Callbacks/Atomics.antt =====
-- The calls that take the place of atomic instructions: their orders, and which of them the runtime has
-- a function for.
use embed_sanitizer.Common.{
  ℕ, zero, suc, ◌*◌, ◌^◌, ◌<◌, ◌≡◌, refl, sym, inl, inr, Bool, true, false, Option, none, some,
  some-inj, List, [], ◌∷◌, arith, Run, ok, fault, failed_assert, ◌>>=◌, if◌then◌else◌, ◌==◌, leb,
  Option-cases,
}
use embed_sanitizer.Report.{Text, codes, text_eq, show_unsigned}
use embed_sanitizer.Ir
use embed_sanitizer.Access.{type_size}
use embed_sanitizer.Ir.{
  Llvm, AtomicOrdering, not_atomic, unordered, monotonic, acquire_release, sequentially_consistent,
  BinOp, xchg, add, sub, and_op, nand, or_op, xor, max_op, min_op, umax, umin, AtomicInst,
  load_inst, store_inst, rmw, cmp_xchg, fence, address_of,
}
use embed_sanitizer.Pass.Select.{get_memory_access_func_index-cases}
use embed_sanitizer.Atomic.{
  AtomicCall, atomic_name, atomic_call, name_part, create_ordering, instrument_rmw, instrument_at,
  instrument_atomic,
}
use embed_sanitizer.Callbacks
use embed_sanitizer.Callbacks.{
  MemoryOrder, relaxed, acq_rel, seq_cst, order_number, tsan_interface, declared,
}

-- The runtime's name for an order.
abbrev pub order_of : AtomicOrdering → Option MemoryOrder
order_of not_atomic = none
order_of unordered = some relaxed
order_of monotonic = some relaxed
order_of Ir.acquire = some Callbacks.acquire
order_of Ir.release = some Callbacks.release
order_of acquire_release = some acq_rel
order_of sequentially_consistent = some seq_cst

-- The number that stands for an order in a call is the one that the runtime's enumeration gives it.
create_ordering-order_number :
    (o : AtomicOrdering)
    → create_ordering o
      ≡ elim (order_of o) [ none ↦ fault failed_assert | some m ↦ ok (order_number m) ]
unfolding create_ordering order_number
create_ordering-order_number not_atomic = refl
create_ordering-order_number unordered = refl
create_ordering-order_number monotonic = refl
create_ordering-order_number Ir.acquire = refl
create_ordering-order_number Ir.release = refl
create_ordering-order_number acquire_release = refl
create_ordering-order_number sequentially_consistent = refl

abbrev pub is_declared : Text → Bool
is_declared name = elim (declared name tsan_interface) [ none ↦ false | some _ ↦ true ]

abbrev pub is_add : BinOp → Bool
is_add add = true
is_add _ = false

-- The runtime has functions for the loads of up to 32 bits and for the addition to 32 bits alone.
abbrev pub has_function : AtomicInst → ℕ → Bool
has_function (load_inst addr order) size = leb size 32
has_function (rmw op addr value order) size = if is_add op then size == 32 else false
has_function _ size = false

below_five : (P : ℕ → Type 0) → P 0 → P 1 → P 2 → P 3 → P 4 → (idx : ℕ) → idx < 5 → P idx
below_five P a b c d e zero h = a
below_five P a b c d e (suc zero) h = b
below_five P a b c d e (suc (suc zero)) h = c
below_five P a b c d e (suc (suc (suc zero))) h = d
below_five P a b c d e (suc (suc (suc (suc zero)))) h = e
below_five P a b c d e (suc (suc (suc (suc (suc idx))))) h = absurd (omega arith)

-- The name for a part and an index is declared or not.
abbrev IsKnown : Text → (ℕ → Bool) → Type 0
IsKnown part known = (idx : ℕ) → idx < 5 → is_declared (atomic_name idx part) ≡ known idx

load-IsKnown : IsKnown (codes "_load") (λ idx. leb (8 * 2 ^ idx) 32)
unfolding tsan_interface declared text_eq show_unsigned
load-IsKnown =
    below_five (λ idx. is_declared (atomic_name idx (codes "_load")) ≡ leb (8 * 2 ^ idx) 32) refl
      refl refl refl refl

add-IsKnown : IsKnown (codes "_fetch_add") (λ idx. 8 * 2 ^ idx == 32)
unfolding tsan_interface declared text_eq show_unsigned
add-IsKnown =
    below_five (λ idx. is_declared (atomic_name idx (codes "_fetch_add")) ≡ (8 * 2 ^ idx == 32))
      refl refl refl refl refl

store-IsKnown : IsKnown (codes "_store") (λ idx. false)
unfolding tsan_interface declared text_eq show_unsigned
store-IsKnown =
    below_five (λ idx. is_declared (atomic_name idx (codes "_store")) ≡ false) refl refl refl refl
      refl

cas-IsKnown : IsKnown (codes "_compare_exchange_val") (λ idx. false)
unfolding tsan_interface declared text_eq show_unsigned
cas-IsKnown =
    below_five (λ idx. is_declared (atomic_name idx (codes "_compare_exchange_val")) ≡ false) refl
      refl refl refl refl

-- The operations that read, modify and write.
rmw-IsKnown :
    (op : BinOp) (part : Text)
    → name_part op ≡ some part
    → IsKnown part (λ idx. if is_add op then 8 * 2 ^ idx == 32 else false)
unfolding name_part tsan_interface declared text_eq show_unsigned
rmw-IsKnown add part e = rw (sym (some-inj e)) add-IsKnown
rmw-IsKnown xchg part e = rw (sym (some-inj e)) (
    below_five (λ idx. is_declared (atomic_name idx (codes "_exchange")) ≡ false) refl refl refl
      refl refl)
rmw-IsKnown sub part e = rw (sym (some-inj e)) (
    below_five (λ idx. is_declared (atomic_name idx (codes "_fetch_sub")) ≡ false) refl refl refl
      refl refl)
rmw-IsKnown and_op part e = rw (sym (some-inj e)) (
    below_five (λ idx. is_declared (atomic_name idx (codes "_fetch_and")) ≡ false) refl refl refl
      refl refl)
rmw-IsKnown nand part e = rw (sym (some-inj e)) (
    below_five (λ idx. is_declared (atomic_name idx (codes "_fetch_nand")) ≡ false) refl refl refl
      refl refl)
rmw-IsKnown or_op part e = rw (sym (some-inj e)) (
    below_five (λ idx. is_declared (atomic_name idx (codes "_fetch_or")) ≡ false) refl refl refl
      refl refl)
rmw-IsKnown xor part e = rw (sym (some-inj e)) (
    below_five (λ idx. is_declared (atomic_name idx (codes "_fetch_xor")) ≡ false) refl refl refl
      refl refl)
rmw-IsKnown max_op part e = absurd (cc)
rmw-IsKnown min_op part e = absurd (cc)
rmw-IsKnown umax part e = absurd (cc)
rmw-IsKnown umin part e = absurd (cc)

bind-ok {ℓ κ} :
    {A : Type ℓ} {B : Type κ} (m : Run A) (next : A → Run B) (b : B)
    → (m >>= next) ≡ ok b
    → (a : A) × (next a ≡ ok b)
bind-ok (ok a) next b h = (a, h)
bind-ok (fault e) next b h = absurd (cc)

named :
    (call : AtomicCall) (name : Text) (bits : ℕ) (args orders : List ℕ)
    → ok (some (record { name = name; bits = bits; args = args; orders = orders })) ≡ ok (some call)
    → call.name ≡ name
named call name bits args orders h = cc

instrument_at-is_declared :
    (i : AtomicInst) (addr idx : ℕ) (call : AtomicCall)
    → address_of i ≡ some addr
    → idx < 5
    → instrument_at idx i ≡ ok (some call)
    → is_declared call.name ≡ has_function i (8 * 2 ^ idx)
unfolding instrument_at instrument_rmw
instrument_at-is_declared (load_inst a order) addr idx call e h run =
    let (o, r) = bind-ok (create_ordering order) _ (some call) run in
    rw (named call _ _ _ _ r) (load-IsKnown idx h)
instrument_at-is_declared (store_inst a v order) addr idx call e h run =
    let (o, r) = bind-ok (create_ordering order) _ (some call) run in
    rw (named call _ _ _ _ r) (store-IsKnown idx h)
instrument_at-is_declared (cmp_xchg a x y success failure) addr idx call e h run =
    let (o, r) = bind-ok (create_ordering success) _ (some call) run in
    let (p, q) = bind-ok (create_ordering failure) _ (some call) r in
    rw (named call _ _ _ _ q) (cas-IsKnown idx h)
instrument_at-is_declared (fence s order) addr idx call e h run = absurd (cc)
instrument_at-is_declared (rmw op a v order) addr idx call e h run =
    elim (Option-cases (name_part op)) [
      | inl missing ↦ absurd (let run' = rw (missing, instrument_rmw) at run in cc)
      | inr (part, found) ↦
          let run' : (do
            o ← create_ordering order
            ok (some (atomic_call idx part (a ∷ v ∷ []) (o ∷ []))))
              ≡ ok (some call) =
            rw (found, instrument_rmw) at run in
          let (o, r) = bind-ok (create_ordering order) _ (some call) run' in
          rw (named call _ _ _ _ r) (rmw-IsKnown op part found idx h)
    ]

fence-is_declared :
    (s : Bool) (order : AtomicOrdering) (call : AtomicCall)
    → instrument_at 0 (fence s order) ≡ ok (some call)
    → is_declared call.name ≡ false
unfolding instrument_at tsan_interface declared text_eq
fence-is_declared true order call run =
    let (o, r) = bind-ok (create_ordering order) _ (some call) run in rw (named call _ _ _ _ r) refl
fence-is_declared false order call run =
    let (o, r) = bind-ok (create_ordering order) _ (some call) run in rw (named call _ _ _ _ r) refl

with_address :
    (ir : Llvm) (i : AtomicInst) (addr : ℕ) (call : AtomicCall)
    → address_of i ≡ some addr
    → instrument_atomic ir i ≡ ok (some call)
    → is_declared call.name ≡ has_function i (type_size ir addr)
unfolding instrument_atomic
with_address ir i addr call e run = elim (get_memory_access_func_index-cases ir addr) [
  | inr (q, _) ↦ absurd (let run' = rw (e, instrument_atomic, q) at run in cc)
  | inl (idx, lt, size, q) ↦
      let run' : instrument_at idx i ≡ ok (some call) = rw (e, instrument_atomic, q) at run in
      rw size (instrument_at-is_declared i addr idx call e lt run')
]

-- A call that takes the place of an atomic instruction goes to a function of the runtime exactly if the
-- instruction is a load of up to 32 bits or an addition to 32 bits.
pub instrument_atomic-is_declared :
    (ir : Llvm) (i : AtomicInst) (call : AtomicCall)
    → instrument_atomic ir i ≡ ok (some call)
    → is_declared call.name
      ≡ has_function i (elim (address_of i) [ none ↦ 0 | some addr ↦ type_size ir addr ])
unfolding instrument_atomic
instrument_atomic-is_declared ir (load_inst a order) call run =
    with_address ir (load_inst a order) a call refl run
instrument_atomic-is_declared ir (store_inst a v order) call run =
    with_address ir (store_inst a v order) a call refl run
instrument_atomic-is_declared ir (rmw op a v order) call run =
    with_address ir (rmw op a v order) a call refl run
instrument_atomic-is_declared ir (cmp_xchg a x y s f) call run =
    with_address ir (cmp_xchg a x y s f) a call refl run
instrument_atomic-is_declared ir (fence s order) call run = fence-is_declared s order call run
