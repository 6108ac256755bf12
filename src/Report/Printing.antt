-- ===== src/Report/Printing.antt =====
-- `printRaces` and the two reports: each race is printed once.
use mathlib.Core.List.{append-nil}
use embed_sanitizer.Common.{
  ℕ, ◌≡◌, ◌⊎◌, inl, inr, refl, ◌∙◌, sym, true, false, List, [], ◌∷◌, ◌++◌, arith, ap,
}
use embed_sanitizer.Report.{
  Text, Race, CharPtr, new_race, message, create_race_message, create_messages, Reports, RaceSet,
  print_races, stack_of, report_race,
}

abbrev pub Printed : List Race → Type 0
Printed [] = Unit
Printed (r ∷ rs) = (r.is_message_created ≡ true) × Printed rs

-- The race as it stands in the set after it has been printed.
abbrev pub printed : Race → Race
printed r = record r { is_message_created = true }

create_messages-Printed : (rs : List Race) (msg : Text) → Printed (create_messages rs msg).0
unfolding create_messages create_race_message
create_messages-Printed [] msg = tt
create_messages-Printed (r ∷ rs) msg = (ground arith, create_messages-Printed rs _)

-- Races that are printed already add nothing.
create_messages-id : (rs : List Race) (msg : Text) → Printed rs → create_messages rs msg ≡ (rs, msg)
unfolding create_messages create_race_message
create_messages-id [] msg p = refl
create_messages-id (r ∷ rs) msg p =
    let rest = create_messages-id rs msg p.1 in ground (arith, rest, p.0)

-- One new race among printed ones adds its message.
create_messages-new :
    (before after : List Race) (r : Race) (msg : Text)
    → r.is_message_created ≡ false
    → Printed (before ++ after)
    → create_messages (before ++ r ∷ after) msg ≡ (before ++ printed r ∷ after, msg ++ message r)
unfolding create_messages create_race_message
create_messages-new [] after r msg new p =
    let rest = create_messages-id after (msg ++ message r) p in ground (arith, rest)
create_messages-new (b ∷ before) after r msg new p =
    let rest = create_messages-new before after r msg new p.1 in ground (arith, rest, p.0)

-- Printing again prints nothing.
pub print_races-print_races : (s : Reports) → print_races (print_races s) ≡ print_races s
unfolding print_races
print_races-print_races s = rw (
  create_messages-id (create_messages s.races []).0 [] (create_messages-Printed s.races []),
  append-nil,
)

pub print_races-Printed : (s : Reports) → Printed (print_races s).races
unfolding print_races
print_races-Printed s = create_messages-Printed s.races []

stack_of-keeps :
    (tid : ℕ) (s : Reports)
    → ((stack_of tid s).1.races ≡ s.races) × ((stack_of tid s).1.output ≡ s.output)
unfolding stack_of
stack_of-keeps tid s = ground arith

module _ (set : RaceSet) (access_type : Text) (line_no : ℕ) (obj_name file_name : CharPtr) (tid : ℕ)
    (s : Reports) where
  -- The race that a report is about, with the call stack of the thread.
  abbrev pub reported : Race
  reported = record (new_race tid line_no access_type obj_name file_name) {
    trace = (stack_of tid s).0;
  }

  -- Where all races of the set are printed already, a report either leaves the set and prints nothing,
  -- or adds its race and prints it alone; either way nothing is left to print.
  pub report_race-once :
      Printed s.races
      → let s' = report_race set access_type line_no obj_name file_name tid s in
        Printed s'.races
        × (((s'.races ≡ s.races) × (s'.output ≡ s.output))
            ⊎ ((before : List Race) × (after : List Race) × (s.races ≡ before ++ after)
                × (s'.races ≡ before ++ printed reported ∷ after)
                × (s'.output ≡ s.output ++ message reported)))
  unfolding report_race print_races new_race
  report_race-once p =
      let keep = stack_of-keeps tid s in
      elim (set.adds reported (stack_of tid s).1.races) [
        | inl same ↦
            let e : create_messages (set.insert_race reported (stack_of tid s).1.races) []
                ≡ (s.races, []) =
              rw (same, keep.0) (create_messages-id s.races [] p) in
            (
              rw e p,
              inl (ap (λ (r : List Race × Text). r.0) e, rw (e, keep.1) (append-nil s.output)),
            )
        | inr (before, after, old, new) ↦
            let p' : Printed (before ++ after) = rw (sym keep.0 ∙ old) at p in
            let e : create_messages (set.insert_race reported (stack_of tid s).1.races) []
                ≡ (before ++ printed reported ∷ after, message reported) =
              rw new (create_messages-new before after reported [] refl p') in
            (
              create_messages-Printed _ [],
              inr (
                before,
                after,
                sym keep.0 ∙ old,
                ap (λ (r : List Race × Text). r.0) e,
                rw (e, keep.1),
              ),
            )
      ]
