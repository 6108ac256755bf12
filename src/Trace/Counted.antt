-- ===== src/Trace/Counted.antt =====
-- A counted access against the order of events: it takes the next number, and its position is known.
use mathlib.Core.Path.{subst}
use embed_sanitizer.Common.{
  ℕ, suc, ◌<◌, ◌≡◌, ◌⊎◌, ◌∙◌, refl, sym, ap, true, false, Bool-cases, inl, inr, List, ◌∷◌, arith,
  ◌==◌, eqb→eq, eqb_refl,
}
use embed_sanitizer.Trace.{Place, read, write, Event, World, at_key, accessed}
use embed_sanitizer.Trace.Order.{HappensBefore, IsCounted, IsIn, Ordered}
use embed_sanitizer.Trace.Ordered.{goes_on}

module _ (tr : ℕ → Event) (start : World) (n : ℕ) (w : World) (place : ℕ → ℕ)
    (o : Ordered tr start n w place) where
  -- The positions with that of the next access.
  abbrev pub place' : ℕ → ℕ
  place' = at_key w.next n place

  old_place : (a : ℕ) → a < w.next → place' a ≡ place a
  old_place a h = let e : (w.next == a) ≡ false = ground arith in rw e refl

  new_place : place' w.next ≡ n
  new_place = rw (eqb_refl w.next) refl

  -- A set that holds the accesses so far has them where they were.
  pub kept :
      (l : ℕ → List ℕ) (addr : ℕ) (i : ℕ)
      → (a : ℕ) × (a < w.next) × IsIn a (l addr) × (place a ≡ i)
      → (a : ℕ) × (a < suc w.next) × IsIn a (l addr) × (place' a ≡ i)
  kept l addr i (a, lt, at_l, e) = (a, omega arith, at_l, old_place a lt ∙ e)

  pub more :
      (l : ℕ → List ℕ) (key addr : ℕ) (i : ℕ)
      → (a : ℕ) × (a < w.next) × IsIn a (l addr) × (place a ≡ i)
      → (a : ℕ) × (a < suc w.next) × IsIn a (at_key key (w.next ∷ l key) l addr) × (place' a ≡ i)
  more l key addr i (a, lt, at_l, e) = (a, omega arith, wider, old_place a lt ∙ e)
    where
      wider : IsIn a (at_key key (w.next ∷ l key) l addr)
      wider = elim (Bool-cases (key == addr)) [
        | inr other ↦ rw other at_l
        | inl same ↦ rw same (inr (subst (λ z. IsIn a (l z)) (sym (eqb→eq key addr same)) at_l))
      ]

  pub newest :
      (l : ℕ → List ℕ) (key addr : ℕ)
      → key ≡ addr
      → (a : ℕ) × (a < suc w.next) × IsIn a (at_key key (w.next ∷ l key) l addr) × (place' a ≡ n)
  newest l key addr e = (w.next, omega arith, is_first, new_place)
    where
      is_first : IsIn w.next (at_key key (w.next ∷ l key) l addr)
      is_first = let q : (key == addr) ≡ true = ground arith in rw q (inl refl)

  -- A counted access, after which the histories are `rs` and `ws`.
  pub counted-Ordered :
      (rs ws : ℕ → List ℕ)
      → ((i addr : ℕ) (p : Place)
          → i < suc n
          → (tr i).action ≡ read addr p
          → IsCounted tr start i
          → (a : ℕ) × (a < suc w.next) × IsIn a (rs addr) × (place' a ≡ i))
      → ((i addr : ℕ) (p : Place)
          → i < suc n
          → (tr i).action ≡ write addr p
          → IsCounted tr start i
          → (a : ℕ) × (a < suc w.next) × IsIn a (ws addr) × (place' a ≡ i))
      → Ordered tr start
          (suc n)
          (record (accessed (tr n).self w) { reads = rs; writes = ws })
          place'
  counted-Ordered rs ws hr hw = record {
    known = λ k a j h le v. elim (now k a h) [
      | inl old ↦
          subst (λ z. HappensBefore tr z j) (sym (old_place a (o.known_past k a old)))
            (o.known k a j old (omega arith) v)
      | inr (e, same) ↦
          subst (λ z. HappensBefore tr z j) (sym new_place ∙ ap place' same)
            (goes_on tr start n w place o k j e (omega arith) v)
    ];
    handed = λ m a j h le v.
        subst (λ z. HappensBefore tr z j) (sym (old_place a (o.handed_past m a h)))
          (o.handed m a j h (omega arith) v);
    known_past = λ k a h. elim (now k a h) [
      | inl old ↦ let lt = o.known_past k a old in omega arith
      | inr (e, same) ↦ omega arith
    ];
    handed_past = λ m a h. let lt = o.handed_past m a h in omega arith;
    reads = hr;
    writes = hw;
  }
    where
      now :
          (k a : ℕ)
          → (accessed (tr n).self w).known k a ≡ true
          → (w.known k a ≡ true) ⊎ (((tr n).self ≡ k) × (w.next ≡ a))
      now k a h = elim (Bool-cases ((tr n).self == k)) [
        | inr other ↦ inl (rw other at h)
        | inl same ↦ elim (Bool-cases (w.next == a)) [
          | inl next ↦ inr (eqb→eq (tr n).self k same, eqb→eq w.next a next)
          | inr past ↦
              inl
                (subst (λ z. w.known z a ≡ true) (eqb→eq (tr n).self k same) (rw (same, past) at h))
        ]
      ]
