-- ===== src/Trace/Linked.antt =====
-- The clocks of a state and the sets of a world tell the same knowledge.
use embed_sanitizer.Common.{
  ℕ, ◌≤◌, ◌<◌, ◌≡◌, ◌∙◌, refl, sym, ap, Bool, false, ◌||◌, some, List, [], ◌∷◌, map, lookup, ◌==◌,
  if◌then◌else◌,
}
use embed_sanitizer.State.{ThreadState, VarState, State}
use embed_sanitizer.Detector.{IsSystem, History, Tracks, Each, knows, all_known, Owned}
use embed_sanitizer.Interface.Memory.{Remembers}
use embed_sanitizer.Trace.{World, all_in}
use embed_sanitizer.Trace.Knowledge.{thread_knows, lock_knows, thread_knows-found, IsStamped}
use embed_sanitizer.Trace.Moves.{Moves}

abbrev pub history : (ℕ → ℕ) → World → ℕ → History
history stamp w addr = record {
  reads = map stamp (w.reads addr);
  writes = map stamp (w.writes addr);
}

-- `stamp` gives the epoch of each access.
pub record Linked (s : State) (w : World) (stamp : ℕ → ℕ) : Type 0 where
  pub system : IsSystem s
  pub running : w.running ≡ s.is_concurrent
  pub known : (k a : ℕ) → a < w.next → w.known k a ≡ thread_knows s.threads k (stamp a)
  pub handed : (j a : ℕ) → a < w.next → w.handed j a ≡ lock_knows s.locks j (stamp a)
  pub unknown : (k a : ℕ) → w.next ≤ a → w.known k a ≡ false
  pub unhanded : (j a : ℕ) → w.next ≤ a → w.handed j a ≡ false
  pub stamped : (a : ℕ) → a < w.next → IsStamped (stamp a)
  pub owned : (a : ℕ) → a < w.next → Owned s (stamp a)
  pub past_reads : (addr : ℕ) → Each (λ a. a < w.next) (w.reads addr)
  pub past_writes : (addr : ℕ) → Each (λ a. a < w.next) (w.writes addr)
  pub remembers : (addr : ℕ) → Remembers s addr (history stamp w addr)

-- Equal parts make equal pieces of knowledge.
pub at_key-either :
    (self k : ℕ) (x y z x' y' z' : Bool)
    → x ≡ x'
    → y ≡ y'
    → z ≡ z'
    → (if self == k then x || y else z) ≡ (if self == k then x' || y' else z')
at_key-either self k x y z x' y' z' p q r = rw (p, q, r) refl

-- A step that moves knowledge, and touches no variable.
pub moved-Linked :
    (s s' : State) (w : World) (stamp : ℕ → ℕ) (known handed known' handed' : ℕ → ℕ → Bool)
    (running : ℕ)
    → Linked s w stamp
    → IsSystem s'
    → s'.vstates ≡ s.vstates
    → ((x : VarState) (h : History) → Tracks s x h → Tracks s' x h)
    → Moves s s' known handed running
    → ((k a : ℕ) → a < w.next → known' k a ≡ known k (stamp a))
    → ((j a : ℕ) → a < w.next → handed' j a ≡ handed j (stamp a))
    → ((k a : ℕ) → w.next ≤ a → known' k a ≡ false)
    → ((j a : ℕ) → w.next ≤ a → handed' j a ≡ false)
    → Linked s' (record w { known = known'; handed = handed'; running = running }) stamp
moved-Linked s s' w stamp known handed known' handed' running l i same tracks mv kn hd un uh =
    record {
      system = i;
      running = mv.running;
      known = λ k a h. kn k a h ∙ sym (mv.threads k (stamp a) (l.stamped a h) (l.owned a h));
      handed = λ j a h. hd j a h ∙ sym (mv.locks j (stamp a) (l.stamped a h) (l.owned a h));
      unknown = un;
      unhanded = uh;
      stamped = l.stamped;
      owned = λ a h. mv.owned (stamp a) (l.owned a h);
      past_reads = l.past_reads;
      past_writes = l.past_writes;
      remembers = λ addr.
          let m = l.remembers addr in
          record {
            fresh = λ e. m.fresh (sym (ap (lookup addr) same) ∙ e);
            kept = λ x e. tracks x _ (m.kept x (sym (ap (lookup addr) same) ∙ e));
          };
    }

-- The reference's tests and those of the clocks.
pub all_in-all_known :
    (s : State) (w : World) (stamp : ℕ → ℕ) (k : ℕ) (t : ThreadState) (l : List ℕ)
    → Linked s w stamp
    → lookup k s.threads ≡ some t
    → Each (λ a. a < w.next) l
    → all_in (w.known k) l ≡ all_known t.c (map stamp l)
unfolding all_known
all_in-all_known s w stamp k t [] li f past = refl
all_in-all_known s w stamp k t (a ∷ l) li f (p, past) =
    let one : w.known k a ≡ knows t.c (stamp a) =
      li.known k a p ∙ thread_knows-found s.threads k (stamp a) t f in
    let rest = all_in-all_known s w stamp k t l li f past in rw (one, rest) refl
