-- ===== src/Pass/Sync.antt =====
-- `InstrIfSynchronization`: the calls of the thread library that get a callback.
use embed_sanitizer.Common.{ℕ, ◌≡◌, ◌⊎◌, refl, inl, inr, Bool, true, false, Bool-cases, none, some}
use embed_sanitizer.Report.{Text, codes}
use embed_sanitizer.Names.{starts_with}
use embed_sanitizer.Pass.{
  SyncCallback, thread_create, thread_join, thread_lock, thread_unlock, instr_if_synchronization,
}

-- The functions of the thread library that a callback stands for, by the start of their names.
abbrev pub function_of : SyncCallback → Text
function_of thread_create = codes "pthread_create"
function_of thread_join = codes "pthread_join"
function_of thread_lock = codes "pthread_mutex_lock"
function_of thread_unlock = codes "pthread_mutex_unlock"

-- A lock is given back before the call that does so, all else is recorded after the call.
abbrev pub comes_after : SyncCallback → Bool
comes_after thread_unlock = false
comes_after _ = true

none_of :
    (name : Text)
    → starts_with (codes "pthread_create") name ≡ false
    → starts_with (codes "pthread_join") name ≡ false
    → starts_with (codes "pthread_mutex_lock") name ≡ false
    → starts_with (codes "pthread_mutex_unlock") name ≡ false
    → (sync : SyncCallback) → starts_with (function_of sync) name ≡ false
none_of name a b c d thread_create = a
none_of name a b c d thread_join = b
none_of name a b c d thread_lock = c
none_of name a b c d thread_unlock = d

-- A call of a function by name gets the callback of a thread function that the name starts like, with
-- the call's argument and on the side of the call that the callback belongs to; or the name starts
-- like none of the four and the call gets no callback.
pub instr_if_synchronization-cases :
    (name : Text) (arg : ℕ)
    → ((sync : SyncCallback) × (starts_with (function_of sync) name ≡ true)
        × (instr_if_synchronization (some name) arg ≡ some (sync, comes_after sync, arg)))
      ⊎ (((sync : SyncCallback) → starts_with (function_of sync) name ≡ false)
          × (instr_if_synchronization (some name) arg ≡ none))
unfolding instr_if_synchronization
instr_if_synchronization-cases name arg =
    elim (Bool-cases (starts_with (codes "pthread_create") name)) [
      | inl a ↦ inl (thread_create, a, rw a refl)
      | inr a ↦ elim (Bool-cases (starts_with (codes "pthread_join") name)) [
        | inl b ↦ inl (thread_join, b, rw (a, b) refl)
        | inr b ↦ elim (Bool-cases (starts_with (codes "pthread_mutex_lock") name)) [
          | inl c ↦ inl (thread_lock, c, rw (a, b, c) refl)
          | inr c ↦ elim (Bool-cases (starts_with (codes "pthread_mutex_unlock") name)) [
            | inl d ↦ inl (thread_unlock, d, rw (a, b, c, d) refl)
            | inr d ↦ inr (none_of name a b c d, rw (a, b, c, d) refl)
          ]
        ]
      ]
    ]
