-- ===== src/AddRunner/Options.antt =====
-- The options of the command (add-runner/src/config.ts), as the argument parser takes them.
pub mod Laws
use github_runner_autoscaler.Common.{
  Text, String, codes, Bool, true, false, List, [], ◌∷◌, Option, none, some,
}
use github_runner_autoscaler.CommandLine.Definitions.{
  Kind, string_kind, number_kind, boolean_kind, Value, one, text, boolean,
}
use github_runner_autoscaler.CommandLine.Booleans.{ArgumentConfig}
use github_runner_autoscaler.CommandLine.Parse.{Outcome, parse}

-- An option by its name, type and alias, whether it is optional, and its default value.
abbrev pub argument : String → Kind → String → Bool → Option Value → ArgumentConfig
argument name kind alias optional default_value = record {
  definition = record {
    name = codes name;
    kind = kind;
    alias = some (codes alias);
    multiple = false;
    lazy_multiple = false;
    default_option = none;
    default_value = default_value;
  };
  optional = optional;
}

unfoldable pub arguments : List ArgumentConfig
arguments =
    argument "name" string_kind "n" false none
    ∷ argument "readPat" string_kind "p" false none
    ∷ argument "adminPat" string_kind "a" false none
    ∷ argument "output" string_kind "f" false (some (one (text [])))
    ∷ argument "maxRunners" number_kind "m" false none
    ∷ argument "owner" string_kind "o" false none
    ∷ argument "repo" string_kind "r" false none
    ∷ argument "labels" string_kind "l" true none
    ∷ argument "githubPatNs" string_kind "g" true none
    ∷ argument "statefulSetNs" string_kind "s" false none
    ∷ argument "help" boolean_kind "h" false (some (one (boolean false)))
    ∷ []

-- The call of `parse` in `GetConfig`.
unfoldable pub parse_arguments : (Text → Bool) → List Text → Outcome
parse_arguments truth argv = parse truth arguments (some (codes "help")) true argv
