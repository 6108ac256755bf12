-- ===== src/Pass/Select.antt =====
-- The callback of an access: its size, and the line that it is handed.
use embed_sanitizer.Common.{
  ℕ, zero, suc, ◌*◌, ◌^◌, ◌<◌, ◌≡◌, ◌⊎◌, ◌↔◌, ◌∙◌, refl, sym, inl, inr, Bool, true, not, ◌&&◌, none,
  some, arith, ◌==◌, Bool-cases, eqb→eq,
}
use embed_sanitizer.Ir.{Llvm, Memory}
use embed_sanitizer.Access.{type_size, get_memory_access_func_index, line_argument, get_line_number}

-- The sizes in bits that have a callback.
pub data IsAccessSize (size : ℕ) : Type 0 where
  access_size : (idx : ℕ) → idx < 5 → size ≡ 8 * 2 ^ idx → IsAccessSize size

-- The tests of `getMemoryAccessFuncIndex`.
abbrev pub is_bad_size : ℕ → Bool
is_bad_size size =
    not (size == 8) && not (size == 16) && not (size == 32) && not (size == 64) && not (size == 128)

is_bad_size-cases : (size : ℕ) → IsAccessSize size ⊎ (is_bad_size size ≡ true)
is_bad_size-cases size = elim (Bool-cases (size == 8)) [
  | inl e ↦ inl (access_size 0 (omega arith) (eqb→eq size 8 e))
  | inr a ↦ elim (Bool-cases (size == 16)) [
    | inl e ↦ inl (access_size 1 (omega arith) (eqb→eq size 16 e))
    | inr b ↦ elim (Bool-cases (size == 32)) [
      | inl e ↦ inl (access_size 2 (omega arith) (eqb→eq size 32 e))
      | inr c ↦ elim (Bool-cases (size == 64)) [
        | inl e ↦ inl (access_size 3 (omega arith) (eqb→eq size 64 e))
        | inr d ↦ elim (Bool-cases (size == 128)) [
          | inl e ↦ inl (access_size 4 (omega arith) (eqb→eq size 128 e))
          | inr f ↦ inr (rw (a, b, c, d, f) refl)
        ]
      ]
    ]
  ]
]

-- An access of 2 ^ idx bytes has the callback `idx`.
pub get_memory_access_func_index-some :
    (ir : Llvm) (addr idx : ℕ)
    → idx < 5
    → type_size ir addr ≡ 8 * 2 ^ idx
    → get_memory_access_func_index ir addr ≡ some idx
unfolding get_memory_access_func_index
get_memory_access_func_index-some ir addr zero h e = rw e refl
get_memory_access_func_index-some ir addr (suc zero) h e = rw e refl
get_memory_access_func_index-some ir addr (suc (suc zero)) h e = rw e refl
get_memory_access_func_index-some ir addr (suc (suc (suc zero))) h e = rw e refl
get_memory_access_func_index-some ir addr (suc (suc (suc (suc zero)))) h e = rw e refl
get_memory_access_func_index-some ir addr (suc (suc (suc (suc (suc idx))))) h e =
    absurd (omega arith)

-- The size in bits is cut to 32 bits. Either what is left is 8 * 2 ^ idx for one of the five callbacks
-- and the index is `idx`, or it is not a size that has a callback, and there is no index.
pub get_memory_access_func_index-cases :
    (ir : Llvm) (addr : ℕ)
    → ((idx : ℕ) × (idx < 5)
        × (type_size ir addr ≡ 8 * 2 ^ idx)
        × (get_memory_access_func_index ir addr ≡ some idx))
      ⊎ ((get_memory_access_func_index ir addr ≡ none) × (IsAccessSize (type_size ir addr) → ⊥))
unfolding get_memory_access_func_index
get_memory_access_func_index-cases ir addr = elim (is_bad_size-cases (type_size ir addr)) [
  | inl (access_size idx h e) ↦ inl (idx, h, e, get_memory_access_func_index-some ir addr idx h e)
  | inr bad ↦
      let no_index : get_memory_access_func_index ir addr ≡ none = rw bad refl in
      inr (
        no_index,
        λ p. elim p [
          | access_size idx h e ↦
              let q = sym no_index ∙ get_memory_access_func_index-some ir addr idx h e in absurd cc
        ],
      )
]

-- The callback is handed the line of the source exactly if the line is below 256.
line_argument-exact :
    (m : Memory) → (line_argument m ≡ get_line_number m.line) ↔ (get_line_number m.line < 256)
unfolding line_argument
line_argument-exact m = (λ h. omega arith, λ h. omega arith)
