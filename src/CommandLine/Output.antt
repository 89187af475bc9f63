-- ===== src/CommandLine/Output.antt =====
-- Option values and the reader of the parser's events (examples/add-runner.js, module 8098,
-- "command-line-args"). The options `camelCase` and `group` are left out: the command uses none.
pub mod Laws
pub mod Cells
pub mod Equals
pub mod Typed
use github_runner_autoscaler.Common.Dict.{insert, lookup}
use github_runner_autoscaler.Common.{
  ℕ, ◌+◌, ◌*◌, ◌-◌, Text, codes, text_eq, Bool, true, false, not, ◌&&◌, ◌||◌, List, [], ◌∷◌, ◌++◌,
  map, Option, none, some, if◌then◌else◌, ◌==◌, Result, ok, err, ◌>>=◌, is_digit, all,
}
use github_runner_autoscaler.CommandLine.Definitions.{
  Definition, Kind, string_kind, number_kind, boolean_kind, Number, whole, other, Scalar, undefined,
  null, text, number, boolean, Value, one, many, is_boolean, is_multiple, ParseError,
  unknown_option, unknown_value, already_set, validate,
}
use github_runner_autoscaler.CommandLine.Parser.{
  Item, expand_combined, Given, absent, empty, flag, given, Event, ArgInfo, ParserState, start,
  unknown_name, text_of, step,
}

unfoldable pub read_digits : ℕ → Text → ℕ
read_digits n [] = n
read_digits n (c ∷ s) = read_digits (n * 10 + (c - b'0')) s

-- `Number(text)`
abbrev pub to_number : Text → Number
to_number [] = whole 0
to_number (c ∷ s) = if all is_digit (c ∷ s) then whole (read_digits 0 (c ∷ s)) else other (c ∷ s)

abbrev pub is_truthy : Text → Bool
is_truthy [] = false
is_truthy (c ∷ s) = true

-- `def.type(val)`
abbrev pub convert : Kind → Given → Scalar
convert string_kind (given t) = text t
convert string_kind flag = text (codes "true")
convert string_kind empty = text (codes "null")
convert string_kind absent = text (codes "undefined")
convert number_kind (given t) = number (to_number t)
convert number_kind flag = number (whole 1)
convert number_kind empty = number (whole 0)
convert number_kind absent = number (other (codes "undefined"))
convert boolean_kind (given t) = boolean (is_truthy t)
convert boolean_kind flag = boolean true
convert boolean_kind empty = boolean false
convert boolean_kind absent = boolean false

-- An `Option`: `state` is "set" where `is_changed`, else "default".
pub record Cell : Type 0 where
  pub def : Definition
  pub value : Value
  pub is_changed : Bool

-- `arrayify(…).slice()`
abbrev pub array_of : Value → List Scalar
array_of (one v) = v ∷ []
array_of (many vs) = vs

-- `resetToDefault`, for an option that takes several values or one, and its default value.
abbrev pub reset_value : Bool → Option Value → Value
reset_value true none = many []
reset_value true (some v) = many (array_of v)
reset_value false none = one null
reset_value false (some v) = v

abbrev pub initial : Definition → Value
initial d = reset_value (is_multiple d) d.default_value

-- `Option.create`
abbrev pub create : Definition → Cell
create d = record { def = d; value = initial d; is_changed = false }

-- `_set` on a multiple option: nothing is added for null and undefined.
abbrev pub push : Cell → Given → Cell
push c absent = c
push c empty = c
push c v = record c {
  value = many ((if c.is_changed then array_of c.value else []) ++ (convert c.def.kind v ∷ []));
  is_changed = true;
}

-- `_set` on a singular option that is not set yet.
abbrev pub replace : Cell → Given → Cell
replace c absent = record c { value = one undefined }
replace c empty = record c { value = one null }
replace c v = record c { value = one (convert c.def.kind v); is_changed = true }

abbrev pub set_value : Cell → Given → Result ParseError Cell
set_value c v =
    if is_multiple c.def
    then ok (push c v)
    else if c.is_changed
    then err (already_set c.def.name c.value v)
    else ok (replace c v)

-- `set`; a `FlagOption` is set to true.
unfoldable pub set_cell : Cell → Given → Result ParseError Cell
set_cell c v = set_value c (if is_boolean c.def then flag else v)

-- An `Output`, in the order of insertion.
abbrev pub Output : Type 0
Output = List (Text × Cell)

abbrev pub cell_of : Option Cell → Cell → Cell
cell_of none d = d
cell_of (some c) d = c

abbrev pub unknown_definition : Definition
unknown_definition = record {
  name = unknown_name;
  kind = string_kind;
  alias = none;
  multiple = true;
  lazy_multiple = false;
  default_option = none;
  default_value = none;
}

abbrev pub has_value : Option Value → Bool
has_value none = false
has_value (some v) = true

unfoldable pub insert_defaults : List Definition → Output → Output
insert_defaults [] out = out
insert_defaults (d ∷ defs) out =
    insert_defaults defs (if has_value d.default_value then insert d.name (create d) out else out)

-- The constructor of `Output`.
unfoldable pub initial_output : List Definition → Output
initial_output defs = insert_defaults defs ((unknown_name, create unknown_definition) ∷ [])

abbrev pub definition_of : Option Definition → Definition
definition_of none = unknown_definition
definition_of (some d) = d

-- The events that are errors unless parsing is partial.
abbrev pub check_event : Bool → Event → Text → Result ParseError (Unit {0})
check_event true e arg = ok tt
check_event false Event.set arg = ok tt
check_event false Event.unknown_value arg = err (unknown_value arg)
check_event false Event.unknown_option arg = err (unknown_option arg)

-- What an event is set to: an unknown argument is collected as it is.
abbrev pub event_value : ArgInfo → Given
event_value a = if text_eq a.name unknown_name then given a.arg else a.value

-- One round of the loop over the parser's events.
unfoldable pub record_event : Bool → Output → ArgInfo → Result ParseError Output
record_event partial out a = do
  _ ← check_event partial a.event a.arg
  cell ← set_cell (cell_of (lookup a.name out) (create (definition_of a.def))) (event_value a)
  ok (insert a.name cell out)

unfoldable pub record_events : Bool → Output → List ArgInfo → Result ParseError Output
record_events partial out [] = ok out
record_events partial out (a ∷ events) = do
  out' ← record_event partial out a
  record_events partial out' events

-- The loop, which draws the events from the parser one argument at a time.
unfoldable pub read_items :
    List Definition → Bool → Bool → ParserState → Output → List Item → Result ParseError Output
read_items defs stop partial st out [] = ok out
read_items defs stop partial st out (i ∷ items) = do
  out' ← record_events partial out (step defs stop st (text_of i)).0
  read_items defs stop partial (step defs stop st (text_of i)).1 out' items

abbrev pub Object : Type 0
Object = List (Text × Value)

-- `_unknown` is left out where it is empty, or parsing is not partial.
abbrev pub is_shown : Bool → Text → Bool
is_shown partial k = partial || not (text_eq k unknown_name)

abbrev pub is_filled : Value → Bool
is_filled (many []) = false
is_filled _ = true

unfoldable pub to_object : Bool → Output → Object
to_object partial [] = []
to_object partial ((k, c) ∷ out) =
    let rest = to_object partial out in
    if is_shown partial k && (is_filled c.value || not (text_eq k unknown_name))
    then (k, c.value) ∷ rest
    else rest

-- `commandLineArgs`
unfoldable pub command_line_args :
    List Definition → Bool → Bool → List Text → Result ParseError Object
command_line_args definitions stop partial argv = do
  defs ← validate definitions
  out ← read_items defs stop (stop || partial) start (initial_output defs) (expand_combined argv)
  ok (to_object (stop || partial) out)
