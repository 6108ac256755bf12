-- ===== src/Report.antt =====
-- Race reports: etsan/race.h and etsan/race_report.h.
-- Text is a list of code points. A `char *` is an address with the text that it points to.
pub mod Printing
pub mod Stack
pub mod Compare
pub mod Digits
use Prim.Native.Char.{code}
use Prim.Native.String
use Prim.Native.String.{String}
use embed_sanitizer.Common.{
  ℕ, zero, suc, ◌+◌, ◌-◌, ◌/◌, ◌%◌, ◌^◌, ◌≡◌, ◌⊎◌, Bool, true, false, not, ◌&&◌, Option, none, some,
  List, [], ◌∷◌, ◌++◌, lookup, insert, ltb, ◌==◌, if◌then◌else◌,
}
use embed_sanitizer.Clock.{sle}

abbrev pub Text : Type 0
Text = List ℕ

abbrev pub codes : String → Text
codes String.[] = []
codes (String.◌∷◌ c s) = code c ∷ codes s

pub record CharPtr : Type 0 where
  pub address : ℕ
  pub text : Text

-- `std::string`'s `==` and `<`.
unfoldable pub text_eq : Text → Text → Bool
text_eq [] [] = true
text_eq (a ∷ s) (b ∷ t) = a == b && text_eq s t
text_eq _ _ = false

unfoldable pub text_lt : Text → Text → Bool
text_lt s [] = false
text_lt [] (b ∷ t) = true
text_lt (a ∷ s) (b ∷ t) = if a == b then text_lt s t else ltb a b

unfoldable pub spaces : ℕ → Text
spaces zero = []
spaces (suc n) = b' ' ∷ spaces n

-- `<<` of an unsigned number, with fuel for ten digits, the most that 32 bits need.
unfoldable pub digits_of : ℕ → ℕ → Text → Text
digits_of zero n acc = (b'0' + n % 10) ∷ acc
digits_of (suc f) n acc =
    let rest = digits_of f (n / 10) ((b'0' + n % 10) ∷ acc) in
    if ltb n 10 then (b'0' + n % 10) ∷ acc else rest

unfoldable pub show_unsigned : ℕ → Text
unfolding digits_of
show_unsigned n = digits_of 10 n []

-- `<<` of an `int`, given as its 32-bit pattern.
unfoldable pub show_int : ℕ → Text
unfolding show_unsigned
show_int n = if ltb n (2 ^ 31) then show_unsigned n else b'-' ∷ show_unsigned (2 ^ 32 - n)

pub record Race : Type 0 where
  pub tid : ℕ
  pub line_no : ℕ
  pub access_type : Text
  pub obj_name : Text
  pub file_name : Text
  pub trace : List CharPtr
  pub is_message_created : Bool

-- The constructor `Race(...)`.
unfoldable pub new_race : ℕ → ℕ → Text → CharPtr → CharPtr → Race
new_race tid line_no access_type obj_name file_name = record {
  tid = tid;
  line_no = line_no;
  access_type = access_type;
  obj_name = obj_name.text;
  file_name = file_name.text;
  trace = [];
  is_message_created = false;
}

-- The loop of `printStack`, over the frames that are left.
unfoldable pub print_frames : ℕ → List CharPtr → Text
print_frames depth [] = []
print_frames depth (func ∷ rest) =
    spaces depth ++ codes " '--->" ++ func.text ++ codes "(...)\n" ++ print_frames (depth + 4) rest

-- `Race::printStack`; the free function `printStack` runs the same loop.
unfoldable pub print_stack : List CharPtr → Text
unfolding print_frames
print_stack trace = print_frames 1 trace

abbrev rule : Text
rule = codes "=============================================\n"

unfoldable pub message : Race → Text
unfolding print_stack
message r =
    rule
    ++ codes "\u{1b}[1;32mEMBEDSANITIZER Race report\u{1b}[m\n"
    ++ codes "\u{1b}[1;31m A race detected at: "
    ++ r.file_name
    ++ codes "\u{1b}[m\n"
    ++ codes "  At line number: "
    ++ show_int r.line_no
    ++ codes "\n"
    ++ codes "  Thread (tid="
    ++ show_unsigned r.tid
    ++ codes ") "
    ++ r.access_type
    ++ codes " \""
    ++ r.obj_name
    ++ codes "\"     \n"
    ++ codes "                                             \n"
    ++ codes "\u{1b}[1;33m Call stack:   \u{1b}[m              \n"
    ++ print_stack r.trace
    ++ rule

-- `createRaceMessage`: the answer, the race after it, and the text that `msg` has then.
unfoldable pub create_race_message : Race → Text → Bool × Race × Text
create_race_message r msg =
    if r.is_message_created
    then (true, r, msg)
    else (false, record r { is_message_created = true }, msg ++ message r)

-- An `int` returned as a `bool`.
abbrev to_bool : ℕ → Bool
to_bool n = not (n == 0)

-- `race_compare`: -1 and 1 are returned as `bool`s.
unfoldable pub race_compare : Race → Race → Bool
race_compare lhs rhs =
    if text_eq lhs.file_name rhs.file_name
    then (if not (sle rhs.line_no lhs.line_no)
        then to_bool (2 ^ 32 - 1)
        else if not (sle lhs.line_no rhs.line_no)
        then to_bool 1
        else if text_eq lhs.access_type rhs.access_type
        then to_bool 0
        else to_bool (2 ^ 32 - 1))
    else text_lt lhs.file_name rhs.file_name

-- `callStack`, `races` in the order of the set, and standard output.
pub record Reports : Type 0 where
  pub call_stack : List (ℕ × List CharPtr)
  pub races : List Race
  pub output : Text

-- `std::set::insert` leaves the set or adds the element at some place. (Which of these it does
-- under `race_compare` is not said: the comparison is no strict order.)
pub record RaceSet : Type 0 where
  pub insert_race : Race → List Race → List Race
  pub adds :
      (r : Race) (rs : List Race)
      → (insert_race r rs ≡ rs)
        ⊎ ((before : List Race) × (after : List Race) × (rs ≡ before ++ after)
            × (insert_race r rs ≡ before ++ r ∷ after))

-- The loop of `printRaces` over the races that are left.
unfoldable pub create_messages : List Race → Text → List Race × Text
unfolding create_race_message
create_messages [] msg = ([], msg)
create_messages (r ∷ rest) msg =
    let (done, r', msg') = create_race_message r msg in
    let (rest', msg'') = create_messages rest msg' in (r' ∷ rest', msg'')

unfoldable pub print_races : Reports → Reports
print_races s =
    let (races', msg) = create_messages s.races [] in
    record s { races = races'; output = s.output ++ msg }

-- `callStack[tid]` enters an empty stack for a thread that has none.
unfoldable pub stack_of : ℕ → Reports → List CharPtr × Reports
unfolding lookup insert
stack_of tid s = elim (lookup tid s.call_stack) [
  | some frames ↦ (frames, s)
  | none ↦ ([], record s { call_stack = insert tid [] s.call_stack })
]

-- The free function `printStack`, of the running thread.
unfoldable pub print_call_stack : ℕ → Reports → Text × Reports
unfolding print_stack stack_of
print_call_stack tid s = let (frames, s') = stack_of tid s in (print_stack frames, s')

unfoldable pub push_function : CharPtr → ℕ → Reports → Reports
push_function func tid s =
    let (frames, s') = stack_of tid s in
    record s' { call_stack = insert tid (frames ++ func ∷ []) s'.call_stack }

-- The last frame and those before it.
unfoldable pub split_last : List CharPtr → Option (List CharPtr × CharPtr)
split_last [] = none
split_last (f ∷ fs) = elim (split_last fs) [
  | none ↦ some ([], f)
  | some (init, last) ↦ some (f ∷ init, last)
]

-- Two `char *` are compared by address.
unfoldable pub pop_function : CharPtr → ℕ → Reports → Reports
pop_function func tid s =
    let (frames, s') = stack_of tid s in
    let wrong : Reports = record s' {
      output =
          s'.output ++ codes "Something wrong with Function Stack: " ++ func.text ++ codes "\n";
    } in
    elim (split_last frames) [
      | none ↦ wrong
      | some (init, last) ↦
          if last.address == func.address
          then record s' { call_stack = insert tid init s'.call_stack }
          else wrong
    ]

module _ (set : RaceSet) where
  -- `reportRaceOnRead` and `reportRaceOnWrite` differ in the access type.
  unfoldable pub report_race : Text → ℕ → CharPtr → CharPtr → ℕ → Reports → Reports
  report_race access_type line_no obj_name file_name tid s =
      let (trace, s') = stack_of tid s in
      let race = record (new_race tid line_no access_type obj_name file_name) { trace = trace } in
      print_races (record s' { races = set.insert_race race s'.races })

  unfoldable pub report_race_on_read : ℕ → CharPtr → CharPtr → ℕ → Reports → Reports
  unfolding report_race
  report_race_on_read = report_race (codes "read")

  unfoldable pub report_race_on_write : ℕ → CharPtr → CharPtr → ℕ → Reports → Reports
  unfolding report_race
  report_race_on_write = report_race (codes "write")
