-- ===== src/Trace/Placed.antt =====
-- Every access of a world has a position in the program, where its thread knows of it.
use mathlib.Core.Path.{subst}
use embed_sanitizer.Common.{
  ℕ, zero, suc, ◌≤◌, ◌<◌, ◌≡◌, ◌⊎◌, ◌∙◌, refl, sym, ap, true, false, Bool-cases, inl, inr, List,
  ◌∷◌, arith, ◌==◌, eqb→eq, eqb_refl,
}
use embed_sanitizer.Trace.{
  Place, Action, read, write, lock, unlock, create, join, Event, World, at_key, accessed, happen,
  happen_all,
}
use embed_sanitizer.Trace.Faithful.{new_world}
use embed_sanitizer.Trace.Order.{prefix, IsCounted, IsIn}
use embed_sanitizer.Trace.Handed.{world, world-suc}

-- An access of the set was there, or it is the event's own.
added :
    (a next key addr : ℕ) (l : ℕ → List ℕ)
    → IsIn a (at_key key (next ∷ l key) l addr)
    → IsIn a (l addr) ⊎ ((a ≡ next) × (key ≡ addr))
added a next key addr l h = elim (Bool-cases (key == addr)) [
  | inr other ↦ inl (rw other at h)
  | inl same ↦
      let e = eqb→eq key addr same in
      let member : IsIn a (next ∷ l key) = rw same at h in
      elim member [ inl now ↦ inr (now, e) | inr past ↦ inl (subst (λ z. IsIn a (l z)) e past) ]
]

-- What a counted access adds.
abbrev IsNew : ℕ → ℕ → World → World → Type 0
IsNew self a w w' =
    (a ≡ w.next) × (w'.known self a ≡ true) × (a < w'.next) × ((w.running == 0) ≡ false)

own_access : (self : ℕ) (w : World) → (accessed self w).known self w.next ≡ true
own_access self w = rw (eqb_refl self, eqb_refl w.next) refl

happen-next : (self : ℕ) (act : Action) (w : World) → w.next ≤ (happen self act w).next
unfolding happen
happen-next self (read addr p) w = elim (Bool-cases (w.running == 0)) [
  | inl alone ↦ rw alone (omega arith)
  | inr several ↦ rw several (omega arith)
]
happen-next self (write addr p) w = elim (Bool-cases (w.running == 0)) [
  | inl alone ↦ rw alone (omega arith)
  | inr several ↦ rw several (omega arith)
]
happen-next self (lock addr) w = omega arith
happen-next self (unlock addr) w = omega arith
happen-next self (create c) w = omega arith
happen-next self (join c) w = omega arith

happen-writes :
    (self a addr : ℕ) (act : Action) (w : World)
    → IsIn a ((happen self act w).writes addr)
    → IsIn a (w.writes addr)
      ⊎ ((p : Place) × (act ≡ write addr p) × IsNew self a w (happen self act w))
unfolding happen
happen-writes self a addr (read key p) w h = elim (Bool-cases (w.running == 0)) [
  | inl alone ↦ inl (rw alone at h)
  | inr several ↦ inl (rw several at h)
]
happen-writes self a addr (write key p) w h = elim (Bool-cases (w.running == 0)) [
  | inl alone ↦ inl (rw alone at h)
  | inr several ↦ elim (added a w.next key addr w.writes (rw several at h)) [
    | inl old ↦ inl old
    | inr (e, same) ↦ inr (
      p,
      ap (λ z. write z p) same,
      rw several (
        e,
        subst (λ z. (accessed self w).known self z ≡ true) (sym e) (own_access self w),
        omega arith,
        refl,
      ),
    )
  ]
]
happen-writes self a addr (lock key) w h = inl h
happen-writes self a addr (unlock key) w h = inl h
happen-writes self a addr (create key) w h = inl h
happen-writes self a addr (join key) w h = inl h

happen-reads :
    (self a addr : ℕ) (act : Action) (w : World)
    → IsIn a ((happen self act w).reads addr)
    → IsIn a (w.reads addr)
      ⊎ ((p : Place) × (act ≡ read addr p) × IsNew self a w (happen self act w))
unfolding happen
happen-reads self a addr (write key p) w h = elim (Bool-cases (w.running == 0)) [
  | inl alone ↦ inl (rw alone at h)
  | inr several ↦ inl (rw several at h)
]
happen-reads self a addr (read key p) w h = elim (Bool-cases (w.running == 0)) [
  | inl alone ↦ inl (rw alone at h)
  | inr several ↦ elim (added a w.next key addr w.reads (rw several at h)) [
    | inl old ↦ inl old
    | inr (e, same) ↦ inr (
      p,
      ap (λ z. read z p) same,
      rw several (
        e,
        subst (λ z. (accessed self w).known self z ≡ true) (sym e) (own_access self w),
        omega arith,
        refl,
      ),
    )
  ]
]
happen-reads self a addr (lock key) w h = inl h
happen-reads self a addr (unlock key) w h = inl h
happen-reads self a addr (create key) w h = inl h
happen-reads self a addr (join key) w h = inl h

-- The access `a` is the event at a position before `n`, an action like `kind`.
pub record Placed (tr : ℕ → Event) (c n a : ℕ) (kind : Place → Action) : Type 0 where
  pub at_event : ℕ
  pub place : Place
  pub before : at_event < n
  pub action : (tr at_event).action ≡ kind place
  pub counted : IsCounted tr (new_world c) at_event
  pub known : (world tr c (suc at_event)).known (tr at_event).self a ≡ true
  pub past : a < (world tr c n).next

module _ (tr : ℕ → Event) (c : ℕ) where
  -- One more event.
  one_more : (n a : ℕ) (kind : Place → Action) → Placed tr c n a kind → Placed tr c (suc n) a kind
  one_more n a kind p = record {
    at_event = p.at_event;
    place = p.place;
    before = omega (arith, p.before);
    action = p.action;
    counted = p.counted;
    known = p.known;
    past = omega (
      arith,
      p.past,
      happen-next (tr n).self (tr n).action (world tr c n),
      ap (λ (z : World). z.next) (world-suc tr c n),
    );
  }

  newest_at :
      (n a : ℕ) (kind : Place → Action) (p : Place)
      → (tr n).action ≡ kind p
      → IsNew (tr n).self a (world tr c n) (happen (tr n).self (tr n).action (world tr c n))
      → Placed tr c (suc n) a kind
  newest_at n a kind p act (e, k, lt, several) = record {
    at_event = n;
    place = p;
    before = omega arith;
    action = act;
    counted = several;
    known = ap (λ (z : World). z.known (tr n).self a) (world-suc tr c n) ∙ k;
    past = omega (arith, lt, ap (λ (z : World). z.next) (world-suc tr c n));
  }

  pub write-Placed :
      (n a addr : ℕ) → IsIn a ((world tr c n).writes addr) → Placed tr c n a (λ p. write addr p)
  unfolding prefix happen_all new_world
  write-Placed zero a addr h = elim h [ ]
  write-Placed (suc n) a addr h =
      let step = subst (λ (z : World). IsIn a (z.writes addr)) (world-suc tr c n) h in
      elim (happen-writes (tr n).self a addr (tr n).action (world tr c n) step) [
        | inl old ↦ one_more n a (λ p. write addr p) (write-Placed n a addr old)
        | inr (p, act, fresh) ↦ newest_at n a (λ p. write addr p) p act fresh
      ]

  pub read-Placed :
      (n a addr : ℕ) → IsIn a ((world tr c n).reads addr) → Placed tr c n a (λ p. read addr p)
  unfolding prefix happen_all new_world
  read-Placed zero a addr h = elim h [ ]
  read-Placed (suc n) a addr h =
      let step = subst (λ (z : World). IsIn a (z.reads addr)) (world-suc tr c n) h in
      elim (happen-reads (tr n).self a addr (tr n).action (world tr c n) step) [
        | inl old ↦ one_more n a (λ p. read addr p) (read-Placed n a addr old)
        | inr (p, act, fresh) ↦ newest_at n a (λ p. read addr p) p act fresh
      ]
