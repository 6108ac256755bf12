-- ===== src/Callbacks/Declared.antt =====
-- The calls that the pass adds have a function of the runtime to go to.
use embed_sanitizer.Common.{
  ℕ, zero, suc, ◌*◌, ◌/◌, ◌%◌, ◌^◌, ◌<◌, ◌≡◌, refl, sym, ap, inl, inr, Bool, true, false, not, ◌||◌,
  Bool-cases, some, some-inj, List, [], ◌∷◌, arith, if◌then◌else◌, ◌==◌, ltb,
}
use embed_sanitizer.Report.{text_eq, show_unsigned}
use embed_sanitizer.Ir.{Llvm, MemInst, memory, is_write}
use embed_sanitizer.Access.{
  type_size, Callback, vptr_update, vptr_load, aligned, unaligned, AccessCall,
  instrument_load_or_store, is_vtable_access,
}
use embed_sanitizer.Pass.Select.{get_memory_access_func_index-cases}
use embed_sanitizer.Callbacks.{
  Param, pointer, int, Declaration, access_callback, tsan_interface, declared,
}

-- The parameters are the same, but for those that the pass declares as of 8 bits and the runtime as an
-- `int` of 32: the line.
pub data Fits : List Param → List Param → Type 0 where
  nil : Fits [] []
  pointers : {ps qs : List Param} → Fits ps qs → Fits (pointer ∷ ps) (pointer ∷ qs)
  line : {ps qs : List Param} → Fits ps qs → Fits (int 8 ∷ ps) (int 32 ∷ qs)

-- The runtime has a function of this name, with the same parameters but for the width of the line.
pub data Offered (d : Declaration) : Type 0 where
  offered :
      (params : List Param)
      → declared d.name tsan_interface ≡ some params
      → Fits d.params params
      → Offered d

abbrev access_fits :
    Fits (pointer ∷ int 8 ∷ pointer ∷ pointer ∷ []) (pointer ∷ int 32 ∷ pointer ∷ pointer ∷ [])
access_fits = pointers (line (pointers (pointers nil)))

aligned-Offered :
    (is_write : Bool) (idx : ℕ) → idx < 5 → Offered (access_callback (aligned is_write idx))
unfolding access_callback tsan_interface declared text_eq show_unsigned
aligned-Offered true zero h = offered _ refl access_fits
aligned-Offered true (suc zero) h = offered _ refl access_fits
aligned-Offered true (suc (suc zero)) h = offered _ refl access_fits
aligned-Offered true (suc (suc (suc zero))) h = offered _ refl access_fits
aligned-Offered true (suc (suc (suc (suc zero)))) h = offered _ refl access_fits
aligned-Offered true (suc (suc (suc (suc (suc idx))))) h = absurd (omega arith)
aligned-Offered false zero h = offered _ refl access_fits
aligned-Offered false (suc zero) h = offered _ refl access_fits
aligned-Offered false (suc (suc zero)) h = offered _ refl access_fits
aligned-Offered false (suc (suc (suc zero))) h = offered _ refl access_fits
aligned-Offered false (suc (suc (suc (suc zero)))) h = offered _ refl access_fits
aligned-Offered false (suc (suc (suc (suc (suc idx))))) h = absurd (omega arith)

-- There is no callback for an unaligned byte.
unaligned-Offered :
    (is_write : Bool) (idx : ℕ)
    → 0 < idx
    → idx < 5
    → Offered (access_callback (unaligned is_write idx))
unfolding access_callback tsan_interface declared text_eq show_unsigned
unaligned-Offered is_write zero l h = absurd (omega arith)
unaligned-Offered true (suc zero) l h = offered _ refl access_fits
unaligned-Offered true (suc (suc zero)) l h = offered _ refl access_fits
unaligned-Offered true (suc (suc (suc zero))) l h = offered _ refl access_fits
unaligned-Offered true (suc (suc (suc (suc zero)))) l h = offered _ refl access_fits
unaligned-Offered false (suc zero) l h = offered _ refl access_fits
unaligned-Offered false (suc (suc zero)) l h = offered _ refl access_fits
unaligned-Offered false (suc (suc (suc zero))) l h = offered _ refl access_fits
unaligned-Offered false (suc (suc (suc (suc zero)))) l h = offered _ refl access_fits
unaligned-Offered is_write (suc (suc (suc (suc (suc idx))))) l h = absurd (omega arith)

vptr_update-Offered : Offered (access_callback vptr_update)
unfolding access_callback tsan_interface declared text_eq
vptr_update-Offered = offered _ refl (pointers (pointers (line (pointers (pointers nil)))))

vptr_load-Offered : Offered (access_callback vptr_load)
unfolding access_callback tsan_interface declared text_eq
vptr_load-Offered = offered _ refl access_fits

-- The callback that an access of size `idx` gets.
abbrev choice : Llvm → MemInst → ℕ → Callback
choice ir i idx =
    let m = memory i in
    if is_vtable_access m.tag
    then (if is_write i then vptr_update else vptr_load)
    else if (m.alignment == 0)
        || not (ltb m.alignment 8)
        || (m.alignment % (type_size ir m.addr / 8) == 0)
    then aligned (is_write i) idx
    else unaligned (is_write i) idx

byte_is_aligned :
    (alignment size idx : ℕ)
    → size ≡ 8 * 2 ^ idx
    → ((alignment == 0) || not (ltb alignment 8) || (alignment % (size / 8) == 0)) ≡ false
    → 0 < idx
byte_is_aligned alignment size zero e h =
    let one : size / 8 ≡ 1 = omega (arith, e) in absurd (let h' = rw one at h in ground arith)
byte_is_aligned alignment size (suc idx) e h = omega arith

pick-Offered :
    (is_vtable is_aligned w : Bool) (idx : ℕ)
    → idx < 5
    → (is_aligned ≡ false → 0 < idx)
    → Offered (
        access_callback (
          if is_vtable
          then (if w then vptr_update else vptr_load)
          else if is_aligned
          then aligned w idx
          else unaligned w idx))
pick-Offered true is_aligned true idx h l = vptr_update-Offered
pick-Offered true is_aligned false idx h l = vptr_load-Offered
pick-Offered false true w idx h l = aligned-Offered w idx h
pick-Offered false false w idx h l = unaligned-Offered w idx (l refl) h

choice-Offered :
    (ir : Llvm) (i : MemInst) (idx : ℕ)
    → idx < 5
    → type_size ir (memory i).addr ≡ 8 * 2 ^ idx
    → Offered (access_callback (choice ir i idx))
choice-Offered ir i idx h e =
    pick-Offered (is_vtable_access (memory i).tag) _ (is_write i) idx h
      (byte_is_aligned (memory i).alignment (type_size ir (memory i).addr) idx e)

-- Every callback that a load or a store gets is declared as a function of the runtime of that name is,
-- but for the line, which the pass declares as of 8 bits and the runtime as of 32.
pub instrument_load_or_store-Offered :
    (ir : Llvm) (i : MemInst) (call : AccessCall)
    → instrument_load_or_store ir i ≡ some call
    → Offered (access_callback call.callback)
unfolding instrument_load_or_store
instrument_load_or_store-Offered ir i call h =
    elim (Bool-cases (ir.is_swift_error (memory i).addr)) [
      | inl skip ↦ absurd (let h' = rw skip at h in cc)
      | inr fine ↦ elim (get_memory_access_func_index-cases ir (memory i).addr) [
        | inr (q, _) ↦ absurd (let h' = rw (fine, q) at h in cc)
        | inl (idx, lt, size, q) ↦
            let same : choice ir i idx ≡ call.callback =
              ap (λ (c : AccessCall). c.callback) (some-inj (rw (fine, q) at h)) in
            rw (sym same) (choice-Offered ir i idx lt size)
      ]
    ]
