-- ===== src/Trace/Shadowed.antt =====
-- A read that a write of the same thread to the same address follows, with accesses of that thread
-- between them only: the races that the two are part of.
use mathlib.Core.Path.{subst}
use embed_sanitizer.Common.{
  ℕ, ◌≤◌, ◌<◌, ◌≡◌, ◌≢◌, ◌⊎◌, ◌∙◌, refl, sym, ap, inl, inr, Bool, true, false, arith,
}
use embed_sanitizer.Trace.{Place, Action, read, write, lock, create, join, Event}
use embed_sanitizer.Trace.Order.{HappensBefore, in_thread, started, handed_over, through}
use embed_sanitizer.Trace.Missed.{Conflict, write_write, read_write, write_read}

abbrev pub is_access : Action → Bool
is_access (read addr p) = true
is_access (write addr p) = true
is_access _ = false

-- At the position the thread makes an access or does nothing, and it is not started there.
abbrev pub IsCalm : (ℕ → Event) → ℕ → ℕ → Type 0
IsCalm tr t j = ((tr j).self ≡ t → is_access (tr j).action ≡ true) × ((tr j).action ≢ create t)

-- So it is from one position to another, the second included.
abbrev pub AllCalm : (ℕ → Event) → ℕ → ℕ → ℕ → Type 0
AllCalm tr t i s = (j : ℕ) → i < j → j ≤ s → IsCalm tr t j

pub no_access : (a b : Action) → is_access a ≡ true → is_access b ≡ false → a ≢ b
no_access a b h g e = let q = ap is_access e in cc

pub earlier_or_not : (e i : ℕ) → (e < i) ⊎ (i ≤ e)
earlier_or_not e i = ground arith

pub first_or_later : (i k : ℕ) → i ≤ k → (i ≡ k) ⊎ (i < k)
first_or_later i k le = ground arith

module _ (tr : ℕ → Event) (t i s : ℕ) (own : (tr i).self ≡ t)
    (first : is_access (tr i).action ≡ true) (calm : AllCalm tr t i s) where
  not_started : (e : ℕ) → i ≤ e → e ≤ s → (tr e).action ≢ create t
  not_started e from to h = elim (first_or_later i e from) [
    | inr later ↦ (calm e later to).1 h
    | inl same ↦ no_access (tr i).action (create t) first refl (ap (λ z. (tr z).action) same ∙ h)
  ]

  -- What happened before one of the accesses happened before the first, or is one of them.
  before_first :
      (e j : ℕ)
      → i < j
      → j ≤ s
      → (tr j).self ≡ t
      → HappensBefore tr e j
      → HappensBefore tr e i ⊎ (((tr e).self ≡ t) × (i ≤ e) × (e < j))
  before_first e j lt le self (in_thread past (inr waits)) =
      absurd (no_access (tr j).action (join (tr e).self) ((calm j lt le).0 self) refl waits)
  before_first e j lt le self (in_thread past (inl same)) = elim (earlier_or_not e i) [
    | inl before ↦ inl (in_thread before (inl (own ∙ sym self ∙ same)))
    | inr later ↦ inr (sym same ∙ self, later, past)
  ]
  before_first e j lt le self (started child past act (inr waits)) =
      absurd (no_access (tr j).action (join child) ((calm j lt le).0 self) refl waits)
  before_first e j lt le self (started child past act (inl same)) =
      let act' : (tr e).action ≡ create t = act ∙ ap create (sym same ∙ self) in
      elim (earlier_or_not e i) [
        | inl before ↦ inl (started t before act' (inl own))
        | inr later ↦ absurd (not_started e later (omega arith) act')
      ]
  before_first e j lt le self (handed_over m past give take) =
      absurd (no_access (tr j).action (lock m) ((calm j lt le).0 self) refl take)
  before_first e j lt le self (through {j = k} one two) = elim (before_first k j lt le self two) [
    | inl reached ↦ inl (through one reached)
    | inr (mine, from, past) ↦ elim (first_or_later i k from) [
      | inl same ↦ inl (subst (λ z. HappensBefore tr e z) (sym same) one)
      | inr later ↦ elim (before_first e k later (omega arith) mine one) [
        | inl reached ↦ inl reached
        | inr (ours, on, before) ↦ inr (ours, on, omega arith)
      ]
    ]
  ]

-- Two accesses in conflict that neither happened before the other.
pub record Race (tr : ℕ → Event) (i e : ℕ) : Type 0 where
  pub conflict : Conflict (tr i).action (tr e).action
  pub not_before : HappensBefore tr i e → ⊥
  pub not_after : HappensBefore tr e i → ⊥

-- What is in conflict with a read is a write to its address.
pub written :
    (a b : Action) (addr : ℕ) (p : Place)
    → Conflict a b
    → a ≡ read addr p
    → (q : Place) × (b ≡ write addr q)
written _ _ addr p (write_write d q r) e = absurd cc
written _ _ addr p (write_read d q r) e = absurd cc
written _ _ addr p (read_write d q r) e = (r, let same : d ≡ addr = cc in ap (λ z. write z r) same)

-- A write of the thread of a read, to the address of the read and after it; between the two the thread
-- makes accesses only.
pub record Shadowed (tr : ℕ → Event) (i s : ℕ) : Type 0 where
  pub addr : ℕ
  pub read_at : Place
  pub write_at : Place
  pub later : i < s
  pub own : (tr s).self ≡ (tr i).self
  pub reading : (tr i).action ≡ read addr read_at
  pub writing : (tr s).action ≡ write addr write_at
  pub calm : AllCalm tr (tr i).self i s

module _ (tr : ℕ → Event) (i s : ℕ) (d : Shadowed tr i s) where
  -- What is in conflict with the read is in conflict with the write.
  pub Shadowed-Conflict : (b : Action) → Conflict (tr i).action b → Conflict (tr s).action b
  Shadowed-Conflict b c =
      let (z, h) = written (tr i).action b d.addr d.read_at c d.reading in
      rw (d.writing, h) (write_write d.addr d.write_at z)

  -- What happened before the write happened before the read, or is by its thread and not before it.
  pub Shadowed-before :
      (e : ℕ)
      → HappensBefore tr e s
      → HappensBefore tr e i ⊎ (((tr e).self ≡ (tr i).self) × (i ≤ e) × (e < s))
  Shadowed-before e h =
      before_first tr (tr i).self i s refl (rw d.reading refl) d.calm e s d.later (omega arith)
        d.own h

  pub Shadowed-after : HappensBefore tr i s
  Shadowed-after = in_thread d.later (inl d.own)

  apart : (e : ℕ) → Race tr i e → (tr e).self ≢ (tr i).self
  apart e r same = elim (earlier_or_not e i) [
    | inl before ↦ r.not_after (in_thread before (inl (sym same)))
    | inr later ↦ elim (first_or_later i e later) [
      | inr after ↦ r.not_before (in_thread after (inl same))
      | inl now ↦
          let (z, h) = written (tr i).action (tr e).action d.addr d.read_at r.conflict d.reading in
          let both : read d.addr d.read_at ≡ write d.addr z =
            sym d.reading ∙ ap (λ z. (tr z).action) now ∙ h in
          cc
    ]
  ]

  pub Shadowed-Race : (e : ℕ) → Race tr i e → Race tr s e
  Shadowed-Race e r = record {
    conflict = Shadowed-Conflict (tr e).action r.conflict;
    not_before = λ b. r.not_before (through Shadowed-after b);
    not_after = λ b. elim (Shadowed-before e b) [
      | inl reached ↦ r.not_after reached
      | inr (mine, from, past) ↦ apart e r mine
    ];
  }
