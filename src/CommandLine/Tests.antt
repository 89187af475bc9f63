-- ===== src/CommandLine/Tests.antt =====
-- Runs of the argument parser on the command's own options (examples/add-runner.js, modules 8098,
-- 5344 and 6512).
use github_runner_autoscaler.Common.Dict.{insert, lookup}
use github_runner_autoscaler.Common.{
  ◌≡◌, refl, arith, Text, codes, Bool, true, false, List, [], ◌∷◌, none, some, ok, inl, inr,
}
use github_runner_autoscaler.CommandLine.Syntax.{
  combined_short, get_option_name, is_option, is_option_equals_notation, is_long_option, is_value,
  short, long, opt_equals, name_equals, up_to_equals, line, visible,
}
use github_runner_autoscaler.CommandLine.Syntax.Forms.{long_arg, equals_arg}
use github_runner_autoscaler.CommandLine.Definitions.{
  Definition, string_kind, number_kind, boolean_kind, one, text, number, whole, boolean, find, get,
  is_valid, validate, has_duplicates, duplicates_from,
}
use github_runner_autoscaler.CommandLine.Parser.{expand_combined, letters, step}
use github_runner_autoscaler.CommandLine.Output.{
  Object, command_line_args, read_items, record_events, record_event, insert_defaults,
  initial_output, set_cell, to_object, read_digits,
}
use github_runner_autoscaler.CommandLine.Output.Equals.Steps.{IsAlike}
use github_runner_autoscaler.CommandLine.Output.Equals.{command_line_args-equals}
use github_runner_autoscaler.CommandLine.Booleans.{
  ArgumentConfig, remove_boolean_values, remove_from, remove_boolean_args, get_boolean_values,
  get_from, get_boolean_args, get_param_config, arg_name, word, convert_boolean,
}
use github_runner_autoscaler.CommandLine.Parse.{
  returned, parse, finish, list_missing, fill_booleans, assign,
}

abbrev name_option : Definition
name_option = record {
  name = codes "name";
  kind = string_kind;
  alias = some (codes "n");
  multiple = false;
  lazy_multiple = false;
  default_option = none;
  default_value = none;
}

abbrev max_option : Definition
max_option = record name_option { name = codes "max"; kind = number_kind; alias = some (codes "m") }

abbrev help_option : Definition
help_option = record name_option {
  name = codes "help";
  kind = boolean_kind;
  alias = some (codes "h");
  default_value = some (one (boolean false));
}

abbrev options : List Definition
options = name_option ∷ max_option ∷ help_option ∷ []

abbrev config : List ArgumentConfig
config =
    record { definition = name_option; optional = false }
    ∷ record { definition = max_option; optional = true }
    ∷ record { definition = help_option; optional = false }
    ∷ []

abbrev argv : List Text
argv = codes "-n" ∷ codes "ci" ∷ codes "--max=12" ∷ []

abbrev result : Object
result =
    (codes "help", one (boolean false))
    ∷ (codes "name", one (text (codes "ci")))
    ∷ (codes "max", one (number (whole 12)))
    ∷ []

abbrev quiet : Text → Bool
quiet t = true

read_argv : command_line_args options false false argv ≡ ok result
unfolding command_line_args validate is_valid has_duplicates duplicates_from expand_combined letters
    combined_short read_items step get find get_option_name is_option is_option_equals_notation
    is_long_option is_value short long opt_equals name_equals up_to_equals line visible
    record_events record_event insert_defaults initial_output set_cell lookup insert to_object
    read_digits
read_argv = refl

command_line_args-equals_example :
    IsAlike
      (codes "ci")
      (command_line_args options false false
        (equals_arg (codes "name") (codes "ci") ∷ codes "-h" ∷ []))
      (command_line_args options false false
        (long_arg (codes "name") ∷ codes "ci" ∷ codes "-h" ∷ []))
unfolding get find get_option_name is_option is_option_equals_notation is_long_option is_value short
    long opt_equals name_equals up_to_equals line visible
command_line_args-equals_example =
    command_line_args-equals (codes "name") (λ e. absurd (ground (arith, e))) options false
      name_option (codes "ci") [] (codes "-h" ∷ [])
      (inr refl, (inr refl, (inl (λ e. absurd (ground (arith, e))), tt)))
      ((λ e. cc), ((refl, refl), ((refl, refl), ((refl, refl), ((refl, refl), tt)))))
      (refl, (refl, tt)) refl refl

parsed : parse quiet config (some (codes "help")) true argv ≡ returned result
unfolding parse finish list_missing fill_booleans assign remove_boolean_values remove_from
    remove_boolean_args get_boolean_values get_from get_boolean_args get_param_config arg_name word
    convert_boolean find command_line_args validate is_valid has_duplicates duplicates_from
    expand_combined letters combined_short read_items step get get_option_name is_option
    is_option_equals_notation is_long_option is_value short long opt_equals name_equals up_to_equals
    line visible record_events record_event insert_defaults initial_output set_cell lookup insert
    to_object read_digits
parsed = refl
