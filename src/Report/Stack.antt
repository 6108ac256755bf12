-- ===== src/Report/Stack.antt =====
-- The call stacks: `pushFunction` and `popFunction`.
use embed_sanitizer.Common.{
  ap, sym, ◌⊎◌, inl, inr, Bool-cases, eqb→eq, eqb→ne, some-inj, Option, ℕ, ◌≡◌, ◌≢◌, refl, ◌∙◌,
  some, List, [], ◌∷◌, ◌++◌, insert, lookup-insert, ◌==◌, if◌then◌else◌, arith, eqb_refl,
}
use embed_sanitizer.Report.{
  codes, CharPtr, Reports, stack_of, split_last, push_function, pop_function,
}

split_last-append : (fs : List CharPtr) (f : CharPtr) → split_last (fs ++ f ∷ []) ≡ some (fs, f)
unfolding split_last
split_last-append [] f = refl
split_last-append (g ∷ fs) f = rw (split_last-append fs f)

-- A thread's stack in a table: absent is empty.
abbrev pub frames : ℕ → Reports → List CharPtr
frames tid s = (stack_of tid s).0

frames-insert :
    (tid j : ℕ) (fs : List CharPtr) (s : Reports)
    → frames j (record s { call_stack = insert tid fs s.call_stack })
      ≡ (if tid == j then fs else frames j s)
unfolding stack_of
frames-insert tid j fs s = ground (arith, lookup-insert tid j fs s.call_stack)

frames-stack_of : (tid j : ℕ) (s : Reports) → frames j (stack_of tid s).1 ≡ frames j s
unfolding stack_of
frames-stack_of tid j s = ground (arith, lookup-insert tid j [] s.call_stack)

-- A stack depends on the table alone.
frames_congr : (j : ℕ) (s u : Reports) → s.call_stack ≡ u.call_stack → frames j s ≡ frames j u
unfolding stack_of
frames_congr j s u e = rw e (ground arith)

frames-push_function :
    (f : CharPtr) (tid j : ℕ) (s : Reports)
    → frames j (push_function f tid s) ≡ (if tid == j then frames tid s ++ f ∷ [] else frames j s)
unfolding push_function
frames-push_function f tid j s =
    frames-insert tid j (frames tid s ++ f ∷ []) (stack_of tid s).1 ∙ rw (frames-stack_of tid j s)

stack_of-output :
    (tid : ℕ) (s : Reports)
    → ((stack_of tid s).1.output ≡ s.output) × ((stack_of tid s).1.races ≡ s.races)
unfolding stack_of
stack_of-output tid s = ground arith

push_function-output :
    (f : CharPtr) (tid : ℕ) (s : Reports)
    → ((push_function f tid s).output ≡ s.output) × ((push_function f tid s).races ≡ s.races)
unfolding push_function
push_function-output f tid s = stack_of-output tid s

-- Popping the last frame, by its address.
pop_function-last :
    (f g : CharPtr) (tid : ℕ) (s : Reports) (init : List CharPtr)
    → frames tid s ≡ init ++ g ∷ []
    → g.address ≡ f.address
    → pop_function f tid s
      ≡ record (stack_of tid s).1 { call_stack = insert tid init (stack_of tid s).1.call_stack }
unfolding pop_function
pop_function-last f g tid s init e a =
    rw (e, split_last-append init g, a, eqb_refl f.address, pop_function)

-- A function that exits after it was entered leaves every thread's stack and the output as they
-- were.
pub pop_function-push_function :
    (f : CharPtr) (tid j : ℕ) (s : Reports)
    → let s' = pop_function f tid (push_function f tid s) in
      (frames j s' ≡ frames j s) × (s'.output ≡ s.output) × (s'.races ≡ s.races)
pop_function-push_function f tid j s =
    let p = push_function f tid s in
    let top : frames tid p ≡ frames tid s ++ f ∷ [] =
      ground (arith, frames-push_function f tid tid s) in
    let keep = stack_of-output tid p in
    let old = push_function-output f tid s in
    rw (pop_function-last f f tid p (frames tid s) top refl) (
      frames-insert tid j (frames tid s) (stack_of tid p).1
          ∙ rw (frames-stack_of tid j p) (ground (arith, frames-push_function f tid j s)),
      keep.0 ∙ old.0,
      keep.1 ∙ old.1,
    )

split_last-cases :
    (fs : List CharPtr)
    → (fs ≡ []) ⊎ ((init : List CharPtr) × (g : CharPtr) × (fs ≡ init ++ g ∷ []))
split_last-cases [] = inl refl
split_last-cases (f ∷ fs) = elim (split_last-cases fs) [
  | inl e ↦ inr ([], f, ap (λ z. f ∷ z) e)
  | inr (init, g, e) ↦ inr (f ∷ init, g, ap (λ z. f ∷ z) e)
]

-- What an exit leaves of the state at the exit. The last function entered is the last of the frames.
pub data Exit (f : CharPtr) (tid : ℕ) (s s' : Reports) : Type 0 where
  left :
      (init : List CharPtr) (g : CharPtr)
      → frames tid s ≡ init ++ g ∷ []
      → g.address ≡ f.address
      → ((j : ℕ) → frames j s' ≡ (if tid == j then init else frames j s))
      → s'.output ≡ s.output
      → Exit f tid s s'
  mismatched :
      ((init : List CharPtr) (g : CharPtr) → frames tid s ≡ init ++ g ∷ [] → g.address ≢ f.address)
      → ((j : ℕ) → frames j s' ≡ frames j s)
      → s'.output
        ≡ s.output ++ codes "Something wrong with Function Stack: " ++ f.text ++ codes "\n"
      → Exit f tid s s'

no_last : (init : List CharPtr) (g : CharPtr) → [] ≢ init ++ g ∷ []
no_last [] g e = cc
no_last (h ∷ init) g e = cc

last_of :
    (xs ys : List CharPtr) (g h : CharPtr)
    → ◌≡◌ {A = Option (List CharPtr × CharPtr)} (some (xs, g)) (some (ys, h))
    → g ≡ h
last_of xs ys g h e = ap (λ (p : List CharPtr × CharPtr). p.1) (some-inj e)

same_last : (init before : List CharPtr) (g h : CharPtr) → init ++ g ∷ [] ≡ before ++ h ∷ [] → g ≡ h
same_last init before g h e =
    last_of init before g h
      (sym (split_last-append init g) ∙ ap split_last e ∙ split_last-append before h)

-- A complaint, where the frames are split as `last` says.
complaint :
    (f : CharPtr) (tid : ℕ) (s : Reports)
    → pop_function f tid s ≡ record (stack_of tid s).1 {
      output =
          (stack_of tid s).1.output
          ++ codes "Something wrong with Function Stack: "
          ++ f.text
          ++ codes "\n";
    }
    → ((init : List CharPtr) (g : CharPtr) → frames tid s ≡ init ++ g ∷ [] → g.address ≢ f.address)
    → Exit f tid s (pop_function f tid s)
complaint f tid s e ne = rw e (
    mismatched ne (λ j. frames_congr j _ (stack_of tid s).1 refl ∙ frames-stack_of tid j s)
      (rw (stack_of-output tid s).0 refl))

-- An exit from a function takes the last function entered off the thread's stack, and prints nothing,
-- if that has its name at the same address; and otherwise, also where the stack is empty, it changes
-- no stack and prints a complaint. The stacks of other threads stay.
pub pop_function-Exit : (f : CharPtr) (tid : ℕ) (s : Reports) → Exit f tid s (pop_function f tid s)
unfolding pop_function split_last
pop_function-Exit f tid s = elim (split_last-cases (frames tid s)) [
  | inl empty ↦
      complaint f tid s (rw (empty, pop_function) refl)
        (λ init g e. absurd (no_last init g (sym empty ∙ e)))
  | inr (init, g, e) ↦ elim (Bool-cases (g.address == f.address)) [
    | inl same ↦
        let same' = eqb→eq g.address f.address same in
        rw (pop_function-last f g tid s init e same') (
          left init g e same'
            (λ j.
              frames-insert tid j init (stack_of tid s).1
              ∙ ap (λ z. if tid == j then init else z) (frames-stack_of tid j s))
            (stack_of-output tid s).0)
    | inr other ↦
        complaint f tid s (rw (e, split_last-append init g, other, pop_function) refl)
          (λ before h q.
            rw (sym (same_last init before g h (sym e ∙ q))) (eqb→ne g.address f.address other))
  ]
]
