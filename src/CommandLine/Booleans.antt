-- ===== src/CommandLine/Booleans.antt =====
-- Boolean options that are given with a value (examples/add-runner.js, module 5344,
-- ts-command-line-args): they are taken out before the parser sees the arguments, and read apart.
pub mod Laws
use github_runner_autoscaler.Common.Dict.{insert}
use github_runner_autoscaler.Common.{
  ℕ, Text, codes, text_eq, Bool, true, false, not, ◌&&◌, ◌||◌, List, [], ◌∷◌, ◌++◌, Option, none,
  some, if◌then◌else◌, ◌==◌, is_digit, is_lower, is_upper, all,
}
use github_runner_autoscaler.CommandLine.Syntax.{dash, is_some}
use github_runner_autoscaler.CommandLine.Definitions.{
  Definition, is_boolean, contains, Value, one, boolean, find, same,
}
use github_runner_autoscaler.CommandLine.Output.{Object, is_truthy}

-- An entry of the configuration: the option that is made of it, and whether `optional` is given.
pub record ArgumentConfig : Type 0 where
  pub definition : Definition
  pub optional : Bool

-- `\w`
abbrev pub is_word : ℕ → Bool
is_word c = is_lower c || is_upper c || is_digit c || c == b'_'

-- The run of `\w` at the front, and what stands behind it.
abbrev pub cons_word : ℕ → Text × Text → Text × Text
cons_word c p = (c ∷ p.0, p.1)

unfoldable pub word : Text → Text × Text
word [] = ([], [])
word (c ∷ s) = let rest = cons_word c (word s) in if is_word c then rest else ([], c ∷ s)

-- `(=(\w+))?$` behind a name
abbrev pub with_value : Text → Text → Option (Text × Option Text)
with_value name [] = some (name, none)
with_value name (c ∷ []) = none
with_value name (c ∷ (d ∷ s)) =
    if c == b'=' && all is_word (d ∷ s) then some (name, some (d ∷ s)) else none

abbrev pub named : Text × Text → Option (Text × Option Text)
named ([], rest) = none
named (c ∷ s, rest) = with_value (c ∷ s) rest

abbrev pub drop_dash : Text → Text
drop_dash [] = []
drop_dash (c ∷ s) = if c == dash then s else c ∷ s

-- `/^-{1,2}(\w+)(=(\w+))?$/.exec(arg)`: the name or alias, and the value
unfoldable pub arg_name : Text → Option (Text × Option Text)
arg_name [] = none
arg_name (c ∷ s) = if c == dash then named (word (drop_dash s)) else none

abbrev pub matches : Text → ArgumentConfig → Bool
matches n c = text_eq c.definition.name n || same c.definition.alias (some n)

-- What `getParamConfig` finds: the option with its value, or nothing.
pub record Param : Type 0 where
  pub option : Definition
  pub value : Option Text

abbrev pub param_of : Option ArgumentConfig → Option Text → Option Param
param_of none v = none
param_of (some c) v = some (record { option = c.definition; value = v })

-- `getParamConfig`
abbrev pub look_up : List ArgumentConfig → Option (Text × Option Text) → Option Param
look_up config none = none
look_up config (some (n, v)) = param_of (find (matches n) config) v

unfoldable pub get_param_config : List ArgumentConfig → Text → Option Param
get_param_config config arg = look_up config (arg_name arg)

abbrev pub boolean_values : List Text
boolean_values = codes "1" ∷ codes "0" ∷ codes "true" ∷ codes "false" ∷ []

-- `isBoolean`
abbrev pub is_flag : Option Definition → Bool
is_flag none = false
is_flag (some d) = is_boolean d

abbrev pub option_of : Option Param → Option Definition
option_of none = none
option_of (some p) = some p.option

abbrev pub flag_value : Option Param → Option Text
flag_value none = none
flag_value (some p) = if is_boolean p.option then p.value else none

-- `args.pop()`
abbrev pub pop : List Text → List Text
pop [] = []
pop (a ∷ []) = []
pop (a ∷ (b ∷ args)) = a ∷ pop (b ∷ args)

-- The accumulator of `removeBooleanValues`.
pub record Kept : Type 0 where
  pub args : List Text
  pub last_option : Option Definition

unfoldable pub remove_boolean_args : List ArgumentConfig → Kept → Text → Kept
remove_boolean_args config k arg =
    if is_flag k.last_option && contains boolean_values arg
    then record { args = pop k.args; last_option = none }
    else if is_some (flag_value (get_param_config config arg))
    then record { args = k.args; last_option = none }
    else record {
      args = k.args ++ (arg ∷ []);
      last_option = option_of (get_param_config config arg);
    }

unfoldable pub remove_from : List ArgumentConfig → Kept → List Text → Kept
remove_from config k [] = k
remove_from config k (arg ∷ args) = remove_from config (remove_boolean_args config k arg) args

unfoldable pub remove_boolean_values : List ArgumentConfig → List Text → List Text
remove_boolean_values config args =
    (remove_from config (record { args = []; last_option = none }) args).args

-- `convertType` for a Boolean option
unfoldable pub convert_boolean : Text → Bool
convert_boolean value =
    if text_eq value (codes "true")
    then true
    else if text_eq value (codes "false")
    then false
    else is_truthy value

-- The accumulator of `getBooleanValues`; `last_name` goes with `last_option`.
pub record Found : Type 0 where
  pub partial : Object
  pub last_option : Option Definition

abbrev pub store : Definition → Text → Object → Object
store d v obj = insert d.name (one (boolean (convert_boolean v))) obj

abbrev pub stored_last : Option Definition → Text → Object → Object
stored_last none arg obj = obj
stored_last (some d) arg obj =
    if is_boolean d && contains boolean_values arg then store d arg obj else obj

abbrev pub stored_value : Definition → Option Text → Option Definition → Text → Object → Object
stored_value d none last arg obj = stored_last last arg obj
stored_value d (some v) last arg obj =
    if is_boolean d then store d v obj else stored_last last arg obj

abbrev pub stored : Option Param → Option Definition → Text → Object → Object
stored none last arg obj = stored_last last arg obj
stored (some p) last arg obj = stored_value p.option p.value last arg obj

unfoldable pub get_boolean_args : List ArgumentConfig → Found → Text → Found
get_boolean_args config f arg = record {
  partial = stored (get_param_config config arg) f.last_option arg f.partial;
  last_option = option_of (get_param_config config arg);
}

unfoldable pub get_from : List ArgumentConfig → Found → List Text → Found
get_from config f [] = f
get_from config f (arg ∷ args) = get_from config (get_boolean_args config f arg) args

unfoldable pub get_boolean_values : List ArgumentConfig → List Text → Object
get_boolean_values config args =
    (get_from config (record { partial = []; last_option = none }) args).partial
