-- ===== src/Trace/Missed.antt =====
-- No race of the program, by the order of its events, is missed.
use mathlib.Core.Path.{subst}
use embed_sanitizer.Common.{
  ℕ, zero, suc, ◌+◌, ◌<◌, ◌≡◌, ◌⊎◌, ◌∙◌, refl, sym, ap, Bool, true, false, Bool-cases, inl, inr,
  List, [], ◌∷◌, arith, length, ◌==◌, Returns,
}
use embed_sanitizer.Detector.{IsSystem}
use embed_sanitizer.Interface.{Runtime}
use embed_sanitizer.Report.{RaceSet}
use embed_sanitizer.Trace.{
  Place, Action, read, write, lock, unlock, create, join, Event, run, World, all_in, races, at_key,
  accessed, happen, happen_all, is_race_free, report_of,
}
use embed_sanitizer.Trace.Paced.{HasTime}
use embed_sanitizer.Trace.Faithful.{AllIn, new_world, run-races}
use embed_sanitizer.Trace.Order.{HappensBefore, prefix, happen_all-snoc, IsCounted, IsIn, Ordered}
use embed_sanitizer.Trace.Ordered.{
  lock-Ordered, unlock-Ordered, create-Ordered, join-Ordered, ignored-Ordered,
}
use embed_sanitizer.Trace.Counted.{place', kept, more, newest, counted-Ordered}

read_addr : Action → ℕ
read_addr (read addr p) = addr
read_addr _ = 0

write_addr : Action → ℕ
write_addr (write addr p) = addr
write_addr _ = 0

is_read : Action → Bool
is_read (read addr p) = true
is_read _ = false

module _ (tr : ℕ → Event) (start : World) (n : ℕ) (w : World) (place : ℕ → ℕ)
    (o : Ordered tr start n w place) (world_at : happen_all (prefix tr n) start ≡ w) where
  -- This event is the access in question, or it is an earlier one.
  last_or_earlier : (i : ℕ) → i < suc n → (i ≡ n) ⊎ (i < n)
  last_or_earlier i lt = ground arith

  read-Ordered :
      (key : ℕ) (p : Place)
      → (tr n).action ≡ read key p
      → Ordered tr start
          (suc n)
          (record (accessed (tr n).self w) { reads = at_key key (w.next ∷ w.reads key) w.reads })
          (place' tr start n w place o)
  unfolding read_addr is_read
  read-Ordered key p act =
      counted-Ordered tr start n w place o _ _
        (λ i addr q lt a c. elim (last_or_earlier i lt) [
          | inr past ↦ more tr start n w place o w.reads key addr i (o.reads i addr q past a c)
          | inl now ↦
              let same : key ≡ addr =
                sym (ap read_addr act)
                ∙ ap (λ z. read_addr (tr z).action) (sym now)
                ∙ ap read_addr a in
              let (b, lt', at_l, e) = newest tr start n w place o w.reads key addr same in
              (b, lt', at_l, e ∙ sym now)
        ])
        (λ i addr q lt a c. elim (last_or_earlier i lt) [
          | inr past ↦ kept tr start n w place o w.writes addr i (o.writes i addr q past a c)
          | inl now ↦
              let z : true ≡ false =
                sym (ap is_read act) ∙ ap (λ z. is_read (tr z).action) (sym now) ∙ ap is_read a in
              absurd (let y = z in cc)
        ])

  write-Ordered :
      (key : ℕ) (p : Place)
      → (tr n).action ≡ write key p
      → Ordered tr start
          (suc n)
          (record (accessed (tr n).self w) { writes = at_key key (w.next ∷ w.writes key) w.writes })
          (place' tr start n w place o)
  unfolding write_addr is_read
  write-Ordered key p act =
      counted-Ordered tr start n w place o _ _
        (λ i addr q lt a c. elim (last_or_earlier i lt) [
          | inr past ↦ kept tr start n w place o w.reads addr i (o.reads i addr q past a c)
          | inl now ↦
              let z : false ≡ true =
                sym (ap is_read act) ∙ ap (λ z. is_read (tr z).action) (sym now) ∙ ap is_read a in
              absurd (let y = z in cc)
        ])
        (λ i addr q lt a c. elim (last_or_earlier i lt) [
          | inr past ↦ more tr start n w place o w.writes key addr i (o.writes i addr q past a c)
          | inl now ↦
              let same : key ≡ addr =
                sym (ap write_addr act)
                ∙ ap (λ z. write_addr (tr z).action) (sym now)
                ∙ ap write_addr a in
              let (b, lt', at_l, e) = newest tr start n w place o w.writes key addr same in
              (b, lt', at_l, e ∙ sym now)
        ])

  -- One more event.
  happen-Ordered :
      (a : Action)
      → (tr n).action ≡ a
      → (later : ℕ → ℕ) × Ordered tr start (suc n) (happen (tr n).self a w) later
  unfolding happen
  happen-Ordered (read key p) act = elim (Bool-cases (w.running == 0)) [
    | inl alone ↦ (place, rw alone (ignored-Ordered tr start n w place o world_at alone))
    | inr several ↦ (place' tr start n w place o, rw several (read-Ordered key p act))
  ]
  happen-Ordered (write key p) act = elim (Bool-cases (w.running == 0)) [
    | inl alone ↦ (place, rw alone (ignored-Ordered tr start n w place o world_at alone))
    | inr several ↦ (place' tr start n w place o, rw several (write-Ordered key p act))
  ]
  happen-Ordered (lock m) act = (place, lock-Ordered tr start n w place o m act)
  happen-Ordered (unlock m) act = (place, unlock-Ordered tr start n w place o m act)
  happen-Ordered (create c) act = (place, create-Ordered tr start n w place o c act)
  happen-Ordered (join c) act = (place, join-Ordered tr start n w place o c act)

all-Ordered :
    (tr : ℕ → Event) (c n : ℕ)
    → (place : ℕ → ℕ) × Ordered tr (new_world c) n (happen_all (prefix tr n) (new_world c)) place
unfolding prefix happen_all new_world
all-Ordered tr c zero = (
  (λ a. 0),
  record {
    known = λ k a j h le v. absurd (let y = h in cc);
    handed = λ m a j h le v. absurd (let y = h in cc);
    known_past = λ k a h. absurd (let y = h in cc);
    handed_past = λ m a h. absurd (let y = h in cc);
    reads = λ i addr p lt a c. absurd (omega arith);
    writes = λ i addr p lt a c. absurd (omega arith);
  },
)
all-Ordered tr c (suc n) =
    let (place, o) = all-Ordered tr c n in
    let w = happen_all (prefix tr n) (new_world c) in
    let (later, o') = happen-Ordered tr (new_world c) n w place o refl (tr n).action refl in
    (
      later,
      subst (λ z. Ordered tr (new_world c) (suc n) z later)
          (sym (happen_all-snoc (prefix tr n) (tr n) (new_world c))) o',
    )

-- Two accesses to one address, of which one writes.
pub data Conflict : Action → Action → Type 0 where
  write_write : (addr : ℕ) (p q : Place) → Conflict (write addr p) (write addr q)
  read_write : (addr : ℕ) (p q : Place) → Conflict (read addr p) (write addr q)
  write_read : (addr : ℕ) (p q : Place) → Conflict (write addr p) (read addr q)

member_known :
    (known : ℕ → Bool) (l : List ℕ) (a : ℕ) → all_in known l ≡ true → IsIn a l → known a ≡ true
member_known known [] a h x = elim x [ ]
member_known known (b ∷ l) a h (inl e) = subst (λ z. known z ≡ true) (sym e) (ground arith)
member_known known (b ∷ l) a h (inr later) = member_known known l a (ground arith) later

-- An access in a list that the thread of an event knows all of, happened before the event.
known-HappensBefore :
    (tr : ℕ → Event) (start : World) (n i : ℕ) (w : World) (place : ℕ → ℕ) (l : List ℕ)
    → Ordered tr start n w place
    → (a : ℕ) × (a < w.next) × IsIn a l × (place a ≡ i)
    → all_in (w.known (tr n).self) l ≡ true
    → HappensBefore tr i n
known-HappensBefore tr start n i w place l o (a, past, at_l, e) all =
    let k = member_known (w.known (tr n).self) l a all at_l in
    subst (λ z. HappensBefore tr z n) e (o.known (tr n).self a n k (omega arith) (inl refl))

-- An access that races with nothing comes after every access that it is in conflict with.
pub races-HappensBefore :
    (tr : ℕ → Event) (c n i : ℕ) (a b : Action)
    → (tr i).action ≡ a
    → (tr n).action ≡ b
    → Conflict a b
    → i < n
    → IsCounted tr (new_world c) i
    → IsCounted tr (new_world c) n
    → races (tr n).self b (happen_all (prefix tr n) (new_world c)) ≡ false
    → HappensBefore tr i n
unfolding races
races-HappensBefore tr c n i _ _ first second (write_write addr p q) lt ci cn calm =
    let (place, o) = all-Ordered tr c n in
    known-HappensBefore tr (new_world c) n i _ place _ o (o.writes i addr p lt first ci)
      (ground (arith, cn, calm))
races-HappensBefore tr c n i _ _ first second (read_write addr p q) lt ci cn calm =
    let (place, o) = all-Ordered tr c n in
    known-HappensBefore tr (new_world c) n i _ place _ o (o.reads i addr p lt first ci)
      (ground (arith, cn, calm))
races-HappensBefore tr c n i _ _ first second (write_read addr p q) lt ci cn calm =
    let (place, o) = all-Ordered tr c n in
    known-HappensBefore tr (new_world c) n i _ place _ o (o.writes i addr p lt first ci)
      (ground (arith, cn, calm))

-- A program on registered threads that starts with no access made, and that has epochs left for its
-- events: if no event before the `n`th raced, and the `n`th is an access in conflict with an earlier one
-- that did not happen before it, both while other threads were counted as running, then the callbacks
-- run without a fault, and the `n`th access is reported.
pub run-reports_race :
    (set : RaceSet) (r : Runtime) (tr : ℕ → Event) (n i : ℕ)
    → IsSystem r.state
    → r.state.vstates ≡ []
    → AllIn r.state (prefix tr (suc n))
    → HasTime r.state (length (prefix tr n) + 1)
    → is_race_free (prefix tr n) (new_world r.state.is_concurrent) ≡ true
    → i < n
    → Conflict (tr i).action (tr n).action
    → IsCounted tr (new_world r.state.is_concurrent) i
    → IsCounted tr (new_world r.state.is_concurrent) n
    → (HappensBefore tr i n → ⊥)
    → Returns
        (run set (prefix tr (suc n)) r)
        λ r'. r'.reports ≡ report_of set (tr n).self (tr n).action r.reports
unfolding prefix
run-reports_race set r tr n i sys empty all time free lt conflict ci cn unordered =
    let (r', go, rep) = run-races set r (prefix tr n) (tr n) sys empty all time free in
    let c = r.state.is_concurrent in
    (
      r',
      go,
      elim (Bool-cases (races (tr n).self (tr n).action (happen_all (prefix tr n) (new_world c)))) [
        | inl raced ↦ rep ∙ rw raced refl
        | inr calm ↦ absurd (
            unordered (
              races-HappensBefore tr c n i (tr i).action (tr n).action refl refl conflict lt ci cn
                calm))
      ],
    )
