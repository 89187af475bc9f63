-- ===== src/CommandLine/Parser.antt =====
-- The iterator over the arguments (examples/add-runner.js, module 8098, "argv-parser").
pub mod Laws
pub mod Events
use github_runner_autoscaler.Common.{
  ℕ, Text, codes, text_eq, Bool, true, false, not, ◌&&◌, ◌||◌, List, [], ◌∷◌, ◌++◌, map, Option,
  none, some, if◌then◌else◌, ◌==◌,
}
use github_runner_autoscaler.CommandLine.Syntax.{dash, is_option, combined_short, opt_equals}
use github_runner_autoscaler.CommandLine.Definitions.{
  Definition, is_boolean, is_multiple, is_default, get, get_default,
}
pub use github_runner_autoscaler.CommandLine.Definitions.{Given, absent, empty, flag, given}

-- An argument of the command line, or one letter of combined short options with the argument that
-- it stood in.
pub data Item : Type 0 where
  plain : Text → Item
  part : Text → Text → Item

unfoldable pub letters : Text → Text → List Item
letters orig [] = []
letters orig (c ∷ s) = part orig (dash ∷ c ∷ []) ∷ letters orig s

-- `arg.slice(1)`, a letter each
abbrev pub split_letters : Text → List Item
split_letters [] = []
split_letters (c ∷ s) = letters (c ∷ s) s

-- `findReplace` on the combined short options, as the parser's constructor calls it.
unfoldable pub expand_combined : List Text → List Item
expand_combined [] = []
expand_combined (arg ∷ argv) =
    let rest = expand_combined argv in
    if combined_short arg then split_letters arg ++ rest else plain arg ∷ rest

pub data Event : Type 0 where
  set unknown_value unknown_option : Event

-- What is yielded; `arg` is what the reader takes from it, `argInfo.subArg || argInfo.arg`.
pub record ArgInfo : Type 0 where
  pub event : Event
  pub arg : Text
  pub name : Text
  pub value : Given
  pub def : Option Definition

-- What one round leaves to the next.
pub record ParserState : Type 0 where
  pub def : Option Definition
  pub singular_default_set : Bool
  pub unknown_found : Bool

abbrev pub start : ParserState
start = record { def = none; singular_default_set = false; unknown_found = false }

abbrev pub unknown_name : Text
unknown_name = codes "_unknown"

abbrev pub text_of : Item → Text
text_of (plain arg) = arg
text_of (part orig arg) = arg

abbrev pub name_of : Option Definition → Text
name_of none = unknown_name
name_of (some d) = d.name

-- What the branches of a round decide.
pub record Reading : Type 0 where
  pub def : Option Definition
  pub value : Given
  pub event : Event

abbrev pub flag_or_null : Definition → Given
flag_or_null d = if is_boolean d then flag else empty

-- "handle long or short option"
abbrev pub read_option : Option Definition → Reading
read_option none = record { def = none; value = absent; event = unknown_option }
read_option (some d) = record { def = some d; value = flag_or_null d; event = set }

-- "handle --option-value notation"
abbrev pub read_equals : Option Definition → Text → Reading
read_equals none v = record { def = none; value = absent; event = unknown_option }
read_equals (some d) v = record {
  def = some d;
  value = (if is_boolean d then flag else given v);
  event = set;
}

-- "get the defaultOption"
abbrev pub read_default : Option Definition → Bool → Text → Reading
read_default (some d) false arg = record { def = some d; value = given arg; event = set }
read_default _ _ arg = record { def = none; value = absent; event = unknown_value }

-- "handle value"
abbrev pub read_value : List Definition → ParserState → Text → Reading
read_value defs st arg = elim (st.def) [
  | some d ↦ record { def = some d; value = given arg; event = set }
  | none ↦ read_default (get_default defs) st.singular_default_set arg
]

-- What a boolean option with a value yields first.
abbrev pub extra : Text → Option Definition → List ArgInfo
extra arg none = []
extra arg (some d) =
    if is_boolean d
    then record {
      event = unknown_value;
      arg = arg;
      name = unknown_name;
      value = absent;
      def = some d;
    }
      ∷ []
    else []

abbrev pub is_set : Event → Bool
is_set set = true
is_set _ = false

abbrev pub is_given : Given → Bool
is_given absent = false
is_given empty = false
is_given _ = true

-- "reset values once consumed and yielded"
abbrev pub carried : Option Definition → Given → Option Definition
carried none v = none
carried (some d) v =
    if is_boolean d then none else if not d.multiple && is_given v then none else some d

abbrev pub sets_default : Option Definition → Event → Bool
sets_default none e = false
sets_default (some d) e = is_default d.default_option && not (is_multiple d) && is_set e

abbrev pub next_state : ParserState → Reading → ParserState
next_state st r = record {
  def = carried r.def r.value;
  singular_default_set = sets_default r.def r.event || st.singular_default_set;
  unknown_found = text_eq (name_of r.def) unknown_name || st.unknown_found;
}

abbrev pub info : Text → Reading → ArgInfo
info arg r = record {
  event = r.event;
  arg = arg;
  name = name_of r.def;
  value = r.value;
  def = r.def;
}

-- One round: what it yields, and what it leaves.
abbrev pub yield : ParserState → Text → List ArgInfo → Reading → List ArgInfo × ParserState
yield st arg before r = (before ++ (info arg r ∷ []), next_state st r)

abbrev pub read_rest :
    List Definition → ParserState → Text → Option (Text × Text) → List ArgInfo × ParserState
read_rest defs st arg none = yield st arg [] (read_value defs st arg)
read_rest defs st arg (some (n, v)) =
    yield st arg (extra arg (get defs n)) (read_equals (get defs n) v)

unfoldable pub step : List Definition → Bool → ParserState → Text → List ArgInfo × ParserState
step defs stop st arg =
    if st.unknown_found && stop
    then (
      record { event = unknown_value; arg = arg; name = unknown_name; value = absent; def = none }
          ∷ [],
      st,
    )
    else (if is_option arg
        then yield st arg [] (read_option (get defs arg))
        else read_rest defs st arg (opt_equals arg))
