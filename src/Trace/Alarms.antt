-- ===== src/Trace/Alarms.antt =====
-- No race is reported that the program, by the order of its events, does not have.
use mathlib.Core.Path.{subst}
use embed_sanitizer.Common.{
  ℕ, zero, suc, ◌≤◌, ◌<◌, ◌≡◌, ◌≢◌, ◌⊎◌, ◌∙◌, refl, sym, ap, true, Bool-cases, inl, inr, arith,
  ◌==◌, eqb→eq, eqb→ne, eqb_refl,
}
use embed_sanitizer.Trace.{Action, read, write, lock, unlock, create, join, Event, World, happen}
use embed_sanitizer.Trace.Order.{
  Involves, HappensBefore, in_thread, started, handed_over, through, grown,
}
use embed_sanitizer.Trace.Handed.{world, world-suc, IsLocking, gains, happen_grows, happen_hands}

-- An action gives the lock back or does not.
unlock_or_not : (act : Action) (m : ℕ) → (act ≡ unlock m) ⊎ (act ≢ unlock m)
unlock_or_not (read addr p) m = inr (λ e. cc)
unlock_or_not (write addr p) m = inr (λ e. cc)
unlock_or_not (lock addr) m = inr (λ e. cc)
unlock_or_not (create c) m = inr (λ e. cc)
unlock_or_not (join c) m = inr (λ e. cc)
unlock_or_not (unlock addr) m = elim (Bool-cases (addr == m)) [
  | inl same ↦ inl (ap unlock (eqb→eq addr m same))
  | inr other ↦ inr (λ e. eqb→ne addr m other (unlocked e))
]
  where
    which : Action → ℕ
    which (unlock a) = a
    which _ = 0

    unlocked : unlock addr ≡ unlock m → addr ≡ m
    unlocked e = ap which e

module _ (tr : ℕ → Event) (c : ℕ) where
  -- A step of the world, for what thread `k` knows and for what lock `m` hands on.
  known_next : (k a n : ℕ) → (world tr c n).known k a ≡ true → (world tr c (suc n)).known k a ≡ true
  known_next k a n h =
      ap (λ (z : World). z.known k a) (world-suc tr c n)
      ∙ happen_grows (tr n).self k a (tr n).action (world tr c n) h

  known_later :
      (k a n m : ℕ) → n ≤ m → (world tr c n).known k a ≡ true → (world tr c m).known k a ≡ true
  known_later k a n zero le h =
      let e : n ≡ 0 = omega arith in subst (λ z. (world tr c z).known k a ≡ true) e h
  known_later k a n (suc m) le h = elim (Bool-cases (n == suc m)) [
    | inl same ↦ subst (λ z. (world tr c z).known k a ≡ true) (eqb→eq n (suc m) same) h
    | inr other ↦ known_next k a m (known_later k a n m (omega (arith, eqb→ne n (suc m) other)) h)
  ]

  hands_next :
      (m a n : ℕ)
      → (tr n).action ≢ unlock m
      → (world tr c (suc n)).handed m a ≡ (world tr c n).handed m a
  hands_next m a n ne =
      ap (λ (z : World). z.handed m a) (world-suc tr c n)
      ∙ happen_hands (tr n).self m a (tr n).action (world tr c n) ne

  hands_same :
      (m a n p : ℕ)
      → n ≤ p
      → ((j : ℕ) → n ≤ j → j < p → (tr j).action ≢ unlock m)
      → (world tr c p).handed m a ≡ (world tr c n).handed m a
  hands_same m a n zero le quiet =
      let e : n ≡ 0 = omega arith in ap (λ z. (world tr c z).handed m a) (sym e)
  hands_same m a n (suc p) le quiet = elim (Bool-cases (n == suc p)) [
    | inl same ↦ ap (λ z. (world tr c z).handed m a) (sym (eqb→eq n (suc p) same))
    | inr other ↦
        let le' : n ≤ p = omega (arith, eqb→ne n (suc p) other) in
        hands_next m a p (quiet p le' (omega arith))
        ∙ hands_same m a n p le' (λ j l h. quiet j l (omega arith))
  ]

  -- What a thread that gives a lock back, or takes it, leaves.
  unlocked_at :
      (m a p : ℕ)
      → (tr p).action ≡ unlock m
      → (world tr c (suc p)).handed m a ≡ (world tr c p).known (tr p).self a
  unlocked_at m a p act =
      ap (λ (z : World). z.handed m a) (world-suc tr c p)
      ∙ rw act (unfold happen in rw (eqb_refl m) refl)

  locked_at :
      (m a p : ℕ)
      → (tr p).action ≡ lock m
      → (world tr c p).handed m a ≡ true
      → (world tr c (suc p)).known (tr p).self a ≡ true
  locked_at m a p act h =
      ap (λ (z : World). z.known (tr p).self a) (world-suc tr c p)
      ∙ rw act
          (unfold happen in gains (tr p).self a (world tr c p).known ((world tr c p).handed m) h)

  -- Giving a lock back or starting a thread teaches the thread nothing.
  before_unlock :
      (a p m : ℕ)
      → (tr p).action ≡ unlock m
      → (world tr c (suc p)).known (tr p).self a ≡ true
      → (world tr c p).known (tr p).self a ≡ true
  before_unlock a p m act h =
      sym (
        ap (λ (z : World). z.known (tr p).self a) (world-suc tr c p)
        ∙ rw act (unfold happen in refl))
      ∙ h

  before_create :
      (a p child : ℕ)
      → (tr p).action ≡ create child
      → (world tr c (suc p)).known (tr p).self a ≡ true
      → (world tr c p).known (tr p).self a ≡ true
  unfolding happen
  before_create a p child act h =
      let w = world tr c p in
      let h' : (happen (tr p).self (create child) w).known (tr p).self a ≡ true =
        rw act at (sym (ap (λ (z : World). z.known (tr p).self a) (world-suc tr c p)) ∙ h) in
      elim (grown child (tr p).self a w.known (w.known (tr p).self) h') [
        | inl old ↦ old
        | inr (_, old) ↦ old
      ]

  module _ (keeps : IsLocking tr) where
    -- What a lock hands on is handed on for good.
    hands_later :
        (m a n p : ℕ) → n ≤ p → (world tr c n).handed m a ≡ true → (world tr c p).handed m a ≡ true
    hands_later m a n zero le h =
        let e : n ≡ 0 = omega arith in subst (λ z. (world tr c z).handed m a ≡ true) e h
    hands_later m a n (suc p) le h = elim (Bool-cases (n == suc p)) [
      | inl same ↦ subst (λ z. (world tr c z).handed m a ≡ true) (eqb→eq n (suc p) same) h
      | inr other ↦
          let old = hands_later m a n p (omega (arith, eqb→ne n (suc p) other)) h in
          elim (unlock_or_not (tr p).action m) [
            | inr quiet ↦ hands_next m a p quiet ∙ old
            | inl given ↦
                let l = keeps m p given in
                let at_taken : (world tr c (suc l.since)).handed m a ≡ true =
                  sym (
                    hands_same m a (suc l.since) p (omega (arith, l.before))
                      (λ j lo hi. l.held j (omega arith) hi))
                  ∙ old in
                let was : (world tr c l.since).handed m a ≡ true =
                  sym (hands_next m a l.since (λ e. let q = sym l.taken ∙ e in cc)) ∙ at_taken in
                let k = locked_at m a l.since l.taken was in
                let k' : (world tr c (suc l.since)).known (tr p).self a ≡ true =
                  subst (λ z. (world tr c (suc l.since)).known z a ≡ true) l.same k in
                unlocked_at m a p given
                ∙ known_later (tr p).self a (suc l.since) p (omega (arith, l.before)) k'
          ]
    ]

    -- What a thread waits for or is itself, it knows.
    involved :
        (k a i j : ℕ)
        → i < j
        → Involves tr k j
        → (world tr c (suc i)).known k a ≡ true
        → (world tr c (suc j)).known (tr j).self a ≡ true
    involved k a i j lt (inl e) h =
        subst (λ z. (world tr c (suc j)).known z a ≡ true) (sym e)
          (known_later k a (suc i) (suc j) (omega arith) h)
    involved k a i j lt (inr act) h =
        let at_j = known_later k a (suc i) j lt h in
        ap (λ (z : World). z.known (tr j).self a) (world-suc tr c j)
        ∙ rw act (
            unfold happen in gains (tr j).self a (world tr c j).known ((world tr c j).known k) at_j)

    -- What a thread knows at an event, it knew of other threads' accesses before the event, or is of a thread that it waits for.
    pub HappensBefore-known :
        (i j a : ℕ)
        → HappensBefore tr i j
        → (world tr c (suc i)).known (tr i).self a ≡ true
        → (world tr c (suc j)).known (tr j).self a ≡ true
    HappensBefore-known i j a (in_thread lt v) h = involved (tr i).self a i j lt v h
    HappensBefore-known i j a (started child lt act v) h =
        involved child a i j lt v (given_to child act)
      where
        given_to :
            (child : ℕ) → (tr i).action ≡ create child → (world tr c (suc i)).known child a ≡ true
        given_to child act =
            ap (λ (z : World). z.known child a) (world-suc tr c i)
            ∙ rw act (
                unfold happen in
                gains child a (world tr c i).known ((world tr c i).known (tr i).self)
                  (before_create a i child act h))
    HappensBefore-known i j a (handed_over m lt out into) h =
        locked_at m a j into
          (hands_later m a (suc i) j lt (unlocked_at m a i out ∙ before_unlock a i m out h))
    HappensBefore-known i j a (through {j = k} p q) h =
        HappensBefore-known k j a q (HappensBefore-known i k a p h)
