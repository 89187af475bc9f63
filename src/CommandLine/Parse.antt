-- ===== src/CommandLine/Parse.antt =====
-- `parse` of ts-command-line-args (examples/add-runner.js, module 6512). The usage guide and the
-- messages are printed and not modelled, and no option loads a file (`loadFromFileArg`).
pub mod Laws
pub mod Typed
pub mod Required
use github_runner_autoscaler.Common.Dict.{insert, lookup}
use github_runner_autoscaler.Common.{
  ℕ, Text, codes, text_eq, Bool, true, false, not, ◌&&◌, ◌||◌, List, [], ◌∷◌, ◌++◌, map, Option,
  none, some, if◌then◌else◌, ◌==◌, Result, ok, err,
}
use github_runner_autoscaler.CommandLine.Definitions.{
  Definition, Value, one, many, undefined, null, text, number, boolean, Number, whole, other,
  Scalar, ParseError, is_boolean,
}
use github_runner_autoscaler.CommandLine.Output.{Object, is_truthy, command_line_args}
use github_runner_autoscaler.CommandLine.Booleans.{
  ArgumentConfig, remove_boolean_values, get_boolean_values,
}

-- How a call of `parse` ends.
pub data Outcome : Type 0 where
  returned : Object → Outcome
  help_exit : Outcome
  missing_exit : List Text → Outcome
  threw : ParseError → Outcome

-- `createCommandLineConfig`
abbrev pub option_list : List ArgumentConfig → List Definition
option_list config = map (λ c. c.definition) config

-- `__assign(target, source)`
unfoldable pub assign : Object → Object → Object
assign obj [] = obj
assign obj ((k, v) ∷ more) = assign (insert k v obj) more

-- `value == null`
abbrev pub is_null_value : Value → Bool
is_null_value (one null) = true
is_null_value (one undefined) = true
is_null_value v = false

abbrev pub is_absent : Option Value → Bool
is_absent none = true
is_absent (some v) = is_null_value v

abbrev pub is_missing : Object → ArgumentConfig → Bool
is_missing obj c = not c.optional && is_absent (lookup c.definition.name obj)

-- `listMissingArgs`: the names that are missing, and the object, in which a Boolean option that was
-- missing is now false. The tests read the object as it was before.
unfoldable pub list_missing : List ArgumentConfig → Object → List Text
list_missing [] obj = []
list_missing (c ∷ config) obj =
    let rest = list_missing config obj in
    if is_missing obj c && not (is_boolean c.definition) then c.definition.name ∷ rest else rest

unfoldable pub fill_booleans : List ArgumentConfig → Object → Object → Object
fill_booleans [] before obj = obj
fill_booleans (c ∷ config) before obj = fill_booleans config before (
    if is_missing before c && is_boolean c.definition
    then insert c.definition.name (one (boolean false)) obj
    else obj)

-- Truth of a value; `truth` is that of `Number(t)` for a text that is no plain digits.
abbrev pub is_true : (Text → Bool) → Option Value → Bool
is_true truth none = false
is_true truth (some (many vs)) = true
is_true truth (some (one (text t))) = is_truthy t
is_true truth (some (one (boolean b))) = b
is_true truth (some (one (number (whole n)))) = not (n == 0)
is_true truth (some (one (number (other t)))) = truth t
is_true truth (some (one s)) = false

abbrev pub asks_help : (Text → Bool) → Option Text → Object → Bool
asks_help truth none obj = false
asks_help truth (some arg) obj = is_true truth (lookup arg obj)

abbrev pub is_nil : List Text → Bool
is_nil [] = true
is_nil (x ∷ xs) = false

-- What follows the parsing of the values.
unfoldable pub finish : (Text → Bool) → List ArgumentConfig → Option Text → Bool → Object → Outcome
finish truth config help_arg exit_process obj =
    let missing = list_missing config obj in
    let filled = fill_booleans config obj obj in
    if asks_help truth help_arg filled && exit_process
    then help_exit
    else if not (is_nil missing) && exit_process
    then missing_exit missing
    else returned filled

abbrev pub finish_result :
    (Text → Bool)
    → List ArgumentConfig
    → Option Text
    → Bool
    → Object
    → Result ParseError Object
    → Outcome
finish_result truth config help_arg exit_process booleans (err e) = threw e
finish_result truth config help_arg exit_process booleans (ok obj) =
    finish truth config help_arg exit_process (assign obj booleans)

unfoldable pub parse :
    (Text → Bool) → List ArgumentConfig → Option Text → Bool → List Text → Outcome
parse truth config help_arg exit_process argv =
    finish_result truth config help_arg exit_process (get_boolean_values config argv)
      (command_line_args (option_list config) false false (remove_boolean_values config argv))
