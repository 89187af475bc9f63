-- ===== src/GitHub/Routes.antt =====
-- The methods for GitHub's routes (examples/add-runner.js, module 6752,
-- @octokit/plugin-rest-endpoint-methods): the methods that are made of routes. A call gives its
-- warnings and the options that the request is made with.
pub mod Laws
pub mod Actions
use github_runner_autoscaler.Common.Dict.{insert, lookup}
use github_runner_autoscaler.Common.{
  ℕ, Text, String, codes, text_eq, Bool, true, false, not, List, [], ◌∷◌, ◌++◌, Option, none, some,
  if◌then◌else◌, split,
}
use github_runner_autoscaler.CommandLine.Syntax.{is_some}
use github_runner_autoscaler.GitHub.Merge.{
  Value, undefined, text, Fields, end, field, find_field, set_field, assign_fields,
}

pub record Decorations : Type 0 where
  pub map_to_data : Option Text
  pub renamed : Option (Text × Text)
  pub deprecated : Option Text
  pub renamed_parameters : List (Text × Text)

pub record Entry : Type 0 where
  pub route : Text
  pub defaults : Fields
  pub decorations : Option Decorations

pub record Method : Type 0 where
  pub defaults : Fields
  pub decorations : Option Decorations

-- `const [method, url] = route.split(/ /)`, as the defaults of the method.
abbrev pub method_and_url : List Text → Fields
method_and_url (method ∷ (url ∷ more)) =
    field (codes "method") (text method) (field (codes "url") (text url) end)
method_and_url (method ∷ []) =
    field (codes "method") (text method) (field (codes "url") undefined end)
method_and_url [] = field (codes "method") undefined (field (codes "url") undefined end)

abbrev pub method_of : Entry → Method
method_of e = record {
  defaults = assign_fields (method_and_url (split b' ' e.route)) e.defaults;
  decorations = e.decorations;
}

-- The inner loop of `endpointsToMethods`, from the methods of the scope so far.
unfoldable pub scope_methods : List (Text × Method) → List (Text × Entry) → List (Text × Method)
scope_methods made [] = made
scope_methods made ((name, e) ∷ es) = scope_methods (insert name (method_of e) made) es

abbrev pub methods_or_none : Option (List (Text × Method)) → List (Text × Method)
methods_or_none none = []
methods_or_none (some ms) = ms

-- `endpointsToMethods`, from the scopes so far; a scope without methods is not made.
unfoldable pub all_methods :
    List (Text × List (Text × Method))
    → List (Text × List (Text × Entry))
    → List (Text × List (Text × Method))
all_methods made [] = made
all_methods made ((scope, []) ∷ scopes) = all_methods made scopes
all_methods made ((scope, e ∷ es) ∷ scopes) =
    all_methods (insert scope (scope_methods (methods_or_none (lookup scope made)) (e ∷ es)) made)
      scopes

unfoldable pub endpoints_to_methods :
    List (Text × List (Text × Entry)) → List (Text × List (Text × Method))
endpoints_to_methods endpoints = all_methods [] endpoints

unfoldable pub delete_field : Text → Fields → Fields
delete_field k end = end
delete_field k (field j v fs) =
    let rest = delete_field k fs in if text_eq j k then rest else field j v rest

abbrev pub value_or_undefined : Option Value → Value
value_or_undefined none = undefined
value_or_undefined (some v) = v

abbrev pub alias_field : Text → Option Value → Option Value → Fields → Fields
alias_field alias (some w) v options = options
alias_field alias none v options = set_field alias (value_or_undefined v) options

-- One round of the loop over `renamedParameters`.
unfoldable pub rename_parameter : Text → Text → Fields → Fields
rename_parameter name alias options =
    if is_some (find_field name options)
    then delete_field name
        (alias_field alias (find_field alias options) (find_field name options) options)
    else options

unfoldable pub rename_parameters : List (Text × Text) → Fields → Fields
rename_parameters [] options = options
rename_parameters ((name, alias) ∷ more) options =
    rename_parameters more (rename_parameter name alias options)

-- The warnings of `decorate`, by what they are about.
pub data Warning : Type 0 where
  renamed_method : Text → Text → Warning
  deprecated_method : Text → Warning
  renamed_parameter : Text → Text → Warning

abbrev pub renamed_warning : Option (Text × Text) → List Warning
renamed_warning none = []
renamed_warning (some p) = renamed_method p.0 p.1 ∷ []

abbrev pub deprecated_warning : Option Text → List Warning
deprecated_warning none = []
deprecated_warning (some t) = deprecated_method t ∷ []

unfoldable pub parameter_warnings : List (Text × Text) → Fields → List Warning
parameter_warnings [] options = []
parameter_warnings ((name, alias) ∷ more) options =
    let rest = parameter_warnings more (rename_parameter name alias options) in
    if is_some (find_field name options) then renamed_parameter name alias ∷ rest else rest

-- The options with the parameter that is the data of the request.
unfoldable pub with_data : Text → Fields → Fields
with_data name options =
    set_field name undefined
      (set_field (codes "data") (value_or_undefined (find_field name options)) options)

abbrev pub decorated : Decorations → Option Text → Fields → List Warning × Fields
decorated d (some name) options = ([], with_data name options)
decorated d none options = (
  renamed_warning d.renamed
      ++ (deprecated_warning d.deprecated ++ parameter_warnings d.renamed_parameters options),
  rename_parameters d.renamed_parameters options,
)

abbrev pub call_with : Option Decorations → Fields → List Warning × Fields
call_with none options = ([], options)
call_with (some d) options = decorated d d.map_to_data options

-- `withDecorations` on the merged options of a call.
unfoldable pub call_method : Method → Fields → List Warning × Fields
call_method m options = call_with m.decorations options
