-- ===== src/Trace/Faithful.antt =====
-- Any program: as long as nothing raced, each callback reports exactly the races of the program.
use embed_sanitizer.Common.{
  ℕ, suc, ◌+◌, ◌≡◌, ◌∙◌, refl, sym, ap, true, false, some, none, List, [], ◌∷◌, ◌++◌, length,
  lookup, arith, if◌then◌else◌, Run, ok, fault, ◌>>=◌, Returns,
}
use embed_sanitizer.State.{VarState, State}
use embed_sanitizer.Detector.{IsSystem}
use embed_sanitizer.Report.{RaceSet}
use embed_sanitizer.Interface.{Runtime}
use embed_sanitizer.Trace.{
  Action, read, write, lock, unlock, create, join, Event, act, run, World, races, happen,
  happen_all, is_race_free, report_of,
}
use embed_sanitizer.Trace.Linked.{Linked}
use embed_sanitizer.Trace.Paced.{IsPlayable, HasTime, Paced}
use embed_sanitizer.Trace.Steps.{
  Stepped, lock-Stepped, unlock-Stepped, create-Stepped, join-Stepped,
}
use embed_sanitizer.Trace.Accesses.{Exact, read-Exact, write-Exact}

-- An event of a registered thread about registered threads.
abbrev pub IsEventIn : State → Event → Type 0
IsEventIn s e = IsPlayable s e.self e.action

-- Every event is one, in the state at the start: threads stay registered.
abbrev pub AllIn : State → List Event → Type 0
AllIn s [] = Unit
AllIn s (e ∷ es) = IsEventIn s e × AllIn s es

pub Paced-HasTime : (s s' : State) (n : ℕ) → Paced s s' → HasTime s (suc n) → HasTime s' n
Paced-HasTime s s' n p time k t' f =
    let (t, g, same, near) = p.epochs k t' f in omega (arith, time k t g, same, near)

Paced-IsPlayable :
    (s s' : State) (self : ℕ) (a : Action) → Paced s s' → IsPlayable s self a → IsPlayable s' self a
Paced-IsPlayable s s' self (read addr q) p h = p.registered self h
Paced-IsPlayable s s' self (write addr q) p h = p.registered self h
Paced-IsPlayable s s' self (lock addr) p h = p.registered self h
Paced-IsPlayable s s' self (unlock addr) p h = p.registered self h
Paced-IsPlayable s s' self (create child) p (a, b, ne) =
    (p.registered self a, p.registered child b, ne)
Paced-IsPlayable s s' self (join child) p (a, b, ne) =
    (p.registered self a, p.registered child b, ne)

pub Paced-AllIn : (s s' : State) (es : List Event) → Paced s s' → AllIn s es → AllIn s' es
Paced-AllIn s s' [] p h = tt
Paced-AllIn s s' (e ∷ es) p (h, hs) =
    (Paced-IsPlayable s s' e.self e.action p h, Paced-AllIn s s' es p hs)

module _ (set : RaceSet) (r : Runtime) (w : World) (stamp : ℕ → ℕ)
    (li : Linked r.state w stamp) where
  -- A callback that never reports.
  quiet :
      (self : ℕ) (a : Action)
      → races self a w ≡ false
      → Returns (act set self a r) (λ r'. Stepped r r' (happen self a w))
      → Returns (act set self a r) (Exact set self a w r)
  quiet self a calm (r', go, st) = (r', go, record { reports = rw calm st.reports; step = λ _. st })

  pub act-Exact :
      (self : ℕ) (a : Action)
      → IsPlayable r.state self a
      → HasTime r.state 1
      → Returns (act set self a r) (Exact set self a w r)
  unfolding races
  act-Exact self (read addr p) (t, f) time = read-Exact set r w stamp self addr p t li f
  act-Exact self (write addr p) (t, f) time = write-Exact set r w stamp self addr p t li f
  act-Exact self (lock addr) h time =
      quiet self (lock addr) refl (lock-Stepped set r w stamp li self addr h)
  act-Exact self (unlock addr) h time =
      quiet self (unlock addr) refl (unlock-Stepped set r w stamp li self addr h time)
  act-Exact self (create child) (h, g, ne) time =
      quiet self (create child) refl (create-Stepped set r w stamp li self child h g ne time)
  act-Exact self (join child) (h, g, ne) time =
      quiet self (join child) refl (join-Stepped set r w stamp li self child h g ne time)

-- What a program without races leaves.
pub record Played (es : List Event) (r r' : Runtime) (w : World) : Type 0 where
  pub stamp : ℕ → ℕ
  pub linked : Linked r'.state w stamp
  pub reports : r'.reports ≡ r.reports
  pub time : (n : ℕ) → HasTime r.state (length es + n) → HasTime r'.state n
  pub playable : (e : Event) → IsEventIn r.state e → IsEventIn r'.state e

pub run-Played :
    (set : RaceSet) (es : List Event) (r : Runtime) (w : World) (stamp : ℕ → ℕ)
    → Linked r.state w stamp
    → AllIn r.state es
    → HasTime r.state (length es)
    → is_race_free es w ≡ true
    → Returns (run set es r) (λ r'. Played es r r' (happen_all es w))
unfolding run is_race_free happen_all
run-Played set [] r w stamp li all time free = (
  r,
  refl,
  record {
    stamp = stamp;
    linked = li;
    reports = refl;
    time = λ n h k t f. omega (arith, h k t f);
    playable = λ e h. h;
  },
)
run-Played set (e ∷ es) r w stamp li (h, hs) time free =
    let calm : races e.self e.action w ≡ false = ground (arith, free) in
    let rest : is_race_free es (happen e.self e.action w) ≡ true = ground (arith, free) in
    let (r1, go, ex) =
      act-Exact set r w stamp li e.self e.action h (λ k t f. omega (arith, time k t f)) in
    let st = ex.step calm in
    let (r2, go2, pl) =
      run-Played set es r1 (happen e.self e.action w) st.stamp st.linked
        (Paced-AllIn r.state r1.state es st.paced hs)
        (Paced-HasTime r.state r1.state (length es) st.paced time) rest in
    (
      r2,
      rw go go2,
      record {
        stamp = pl.stamp;
        linked = pl.linked;
        reports = pl.reports ∙ st.reports;
        time = λ n q. pl.time n (
            Paced-HasTime r.state r1.state (length es + n) st.paced
              (λ k t f. omega (arith, q k t f)));
        playable =
            λ d q. pl.playable d (Paced-IsPlayable r.state r1.state d.self d.action st.paced q);
      },
    )

-- Before the first access.
unfoldable pub new_world : ℕ → World
new_world running = record {
  known = λ k a. false;
  handed = λ j a. false;
  reads = λ addr. [];
  writes = λ addr. [];
  next = 0;
  running = running;
}

empty_lookup :
    (s : State) (addr : ℕ) (x : VarState) → s.vstates ≡ [] → lookup addr s.vstates ≡ some x → ⊥
unfolding lookup
empty_lookup s addr x empty e = let f : none ≡ some x = sym (ap (lookup addr) empty) ∙ e in cc

pub new_world-Linked :
    (s : State) → IsSystem s → s.vstates ≡ [] → Linked s (new_world s.is_concurrent) (λ a. 0)
unfolding new_world
new_world-Linked s i empty = record {
  system = i;
  running = refl;
  known = λ k a h. absurd (omega arith);
  handed = λ j a h. absurd (omega arith);
  unknown = λ k a h. refl;
  unhanded = λ j a h. refl;
  stamped = λ a h. absurd (omega arith);
  owned = λ a h. absurd (omega arith);
  past_reads = λ addr. tt;
  past_writes = λ addr. tt;
  remembers =
      λ addr. record { fresh = λ e. refl; kept = λ x e. absurd (empty_lookup s addr x empty e) };
}

-- A run that ends well does so in its first part too.
resume :
    (m : Run Runtime) (f g : Runtime → Run Runtime) (r1 r2 : Runtime)
    → ((r : Runtime) → f r ≡ ok r1 → g r ≡ ok r2)
    → (m >>= f) ≡ ok r1
    → (m >>= g) ≡ ok r2
resume (fault q) f g r1 r2 h e = absurd (let z : fault q ≡ ok r1 = e in cc)
resume (ok r) f g r1 r2 h e = h r e

run-snoc :
    (set : RaceSet) (es : List Event) (e : Event) (r r1 r2 : Runtime)
    → run set es r ≡ ok r1
    → act set e.self e.action r1 ≡ ok r2
    → run set (es ++ e ∷ []) r ≡ ok r2
unfolding run
run-snoc set [] e r r1 r2 go last = let q : r ≡ r1 = cc in rw (q, last) refl
run-snoc set (d ∷ es) e r r1 r2 go last =
    resume (act set d.self d.action r) (run set es) (run set (es ++ e ∷ [])) r1 r2
      (λ z q. run-snoc set es e z r1 r2 q last) go

pub AllIn-prefix :
    (s : State) (es : List Event) (e : Event) → AllIn s (es ++ e ∷ []) → AllIn s es × IsEventIn s e
AllIn-prefix s [] e (h, _) = (tt, h)
AllIn-prefix s (d ∷ es) e (h, hs) = let (a, b) = AllIn-prefix s es e hs in ((h, a), b)

-- A program on registered threads that starts with no access made, and that has epochs left for its
-- events: if none of its events but the last races, it does not fault, and it reports the last one if
-- that races, and nothing else.
pub run-races :
    (set : RaceSet) (r : Runtime) (es : List Event) (e : Event)
    → IsSystem r.state
    → r.state.vstates ≡ []
    → AllIn r.state (es ++ e ∷ [])
    → HasTime r.state (length es + 1)
    → is_race_free es (new_world r.state.is_concurrent) ≡ true
    → Returns (run set (es ++ e ∷ []) r) λ r'. r'.reports ≡ (
        if races e.self e.action (happen_all es (new_world r.state.is_concurrent))
        then report_of set e.self e.action r.reports
        else r.reports)
run-races set r es e i empty all time free =
    let (before, last) = AllIn-prefix r.state es e all in
    let li = new_world-Linked r.state i empty in
    let (r1, go, pl) =
      run-Played set es r _ _ li before (λ k t f. omega (arith, time k t f)) free in
    let (r2, go2, ex) =
      act-Exact set r1 _ pl.stamp pl.linked e.self e.action (pl.playable e last) (pl.time 1 time) in
    let a = races e.self e.action (happen_all es (new_world r.state.is_concurrent)) in
    (
      r2,
      run-snoc set es e r r1 r2 go go2,
      ex.reports ∙ ap (λ z. if a then report_of set e.self e.action z else z) pl.reports,
    )
