-- ===== src/State/Register.antt =====
-- `getState` for a thread that the table does not hold yet.
use embed_sanitizer.Common.{
  ℕ, zero, suc, ◌+◌, ◌-◌, ◌≡◌, refl, ◌∙◌, none, [], lookup, insert, arith, length, length-append,
  put-out, fault, out_of_range,
}
use embed_sanitizer.Clock.{VectorClock, u32, shl24}
use embed_sanitizer.State.{
  ThreadState, State, push_clocks, update_clock, blank, register, get_state,
}

length-push_clocks :
    (n idx tid : ℕ) (c : VectorClock) → length (push_clocks n idx tid c) ≡ length c + n
unfolding push_clocks
length-push_clocks zero idx tid c = omega arith
length-push_clocks (suc n) idx tid c =
    length-push_clocks n (suc idx) tid _ ∙ omega (arith, length-append c _)

length-update_clock : (n : ℕ) (t : ThreadState) → t.c ≡ [] → length (update_clock n t).c ≡ n
unfolding update_clock
length-update_clock n t e =
    length-push_clocks (n - length t.c) (length t.c) t.tid t.c ∙ rw e (omega arith)

-- A thread that the table does not hold gets a clock of as many entries as its own number, so that
-- `getState` writes the entry of its number one past the end.
pub get_state-unknown :
    (id : ℕ) (s : State) → lookup id s.threads ≡ none → get_state id s ≡ fault out_of_range
unfolding get_state register
get_state-unknown id s e =
    let n = length (insert id blank s.threads) in
    let st : ThreadState = record { tid = n; c = []; epoch = u32 (shl24 n + 1) } in
    rw (
      e,
      get_state,
      put-out (update_clock n st).c n st.epoch (omega (arith, length-update_clock n st refl)),
    )
