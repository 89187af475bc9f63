-- ===== src/AddRunner/Tests/Arguments.antt =====
-- A run of the argument parser with the command's options (add-runner/src/config.ts).
use github_runner_autoscaler.Common.Dict.{insert, lookup}
use github_runner_autoscaler.Common.{◌≡◌, refl, Text, codes, Bool, true, false, List, [], ◌∷◌, All}
use github_runner_autoscaler.CommandLine.Syntax.{
  combined_short, get_option_name, is_option, is_option_equals_notation, is_long_option, is_value,
  short, long, opt_equals, name_equals, up_to_equals, line, visible,
}
use github_runner_autoscaler.CommandLine.Definitions.{
  one, text, number, whole, boolean, find, get, is_valid, validate, has_duplicates, duplicates_from,
}
use github_runner_autoscaler.CommandLine.Parser.{expand_combined, letters, step}
use github_runner_autoscaler.CommandLine.Output.{
  Object, command_line_args, read_items, record_events, record_event, insert_defaults,
  initial_output, set_cell, to_object, read_digits,
}
use github_runner_autoscaler.CommandLine.Booleans.{
  remove_boolean_values, remove_from, remove_boolean_args, get_boolean_values, get_from,
  get_boolean_args, get_param_config, arg_name, word, convert_boolean,
}
use github_runner_autoscaler.CommandLine.Parse.{
  returned, parse, finish, list_missing, fill_booleans, assign,
}
use github_runner_autoscaler.AddRunner.Options.{arguments, parse_arguments}
use github_runner_autoscaler.AddRunner.Options.Laws.{HasText, parse_arguments-HasText}

abbrev argv : List Text
argv =
    codes "-n"
    ∷ codes "ci"
    ∷ codes "--readPat=p.txt"
    ∷ codes "-a"
    ∷ codes "a.txt"
    ∷ codes "-m"
    ∷ codes "2"
    ∷ codes "--owner"
    ∷ codes "devjoes"
    ∷ codes "-r"
    ∷ codes "demo"
    ∷ codes "-s"
    ∷ codes "runners"
    ∷ []

abbrev quiet : Text → Bool
quiet t = true

abbrev result : Object
result =
    (codes "output", one (text []))
    ∷ (codes "help", one (boolean false))
    ∷ (codes "name", one (text (codes "ci")))
    ∷ (codes "readPat", one (text (codes "p.txt")))
    ∷ (codes "adminPat", one (text (codes "a.txt")))
    ∷ (codes "maxRunners", one (number (whole 2)))
    ∷ (codes "owner", one (text (codes "devjoes")))
    ∷ (codes "repo", one (text (codes "demo")))
    ∷ (codes "statefulSetNs", one (text (codes "runners")))
    ∷ []

parsed_argv : parse_arguments quiet argv ≡ returned result
unfolding parse_arguments arguments parse finish list_missing fill_booleans assign
    remove_boolean_values remove_from remove_boolean_args get_boolean_values get_from
    get_boolean_args get_param_config arg_name word convert_boolean find command_line_args validate
    is_valid has_duplicates duplicates_from expand_combined letters combined_short read_items step
    get get_option_name is_option is_option_equals_notation is_long_option is_value short long
    opt_equals name_equals up_to_equals line visible record_events record_event insert_defaults
    initial_output set_cell lookup insert to_object read_digits
parsed_argv = refl

parse_arguments-HasText_example : All (HasText result) (
    codes "name"
    ∷ codes "readPat"
    ∷ codes "adminPat"
    ∷ codes "output"
    ∷ codes "owner"
    ∷ codes "repo"
    ∷ codes "statefulSetNs"
    ∷ [])
parse_arguments-HasText_example = parse_arguments-HasText quiet argv result parsed_argv
