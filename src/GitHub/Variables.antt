-- ===== src/GitHub/Variables.antt =====
-- The variables of a URL (examples/add-runner.js, module 2995): `:name` made `{name}`, and the names in
-- braces.
use github_runner_autoscaler.Common.{
  Text, is_lower, Bool, true, false, ◌&&◌, List, [], ◌∷◌, ◌++◌, Option, none, some, if◌then◌else◌,
  ◌==◌, split,
}
use github_runner_autoscaler.CommandLine.Booleans.{is_word}

-- `/:([a-z]\w+)/` behind a colon
abbrev pub starts_variable : Text → Bool
starts_variable (c ∷ (d ∷ s)) = is_lower c && is_word d
starts_variable s = false

abbrev pub close_variable : Bool → Text → Text
close_variable inside s = if inside then b'}' ∷ s else s

-- `replace(/:([a-z]\w+)/g, "{$1}")`, with a variable open or not
unfoldable pub brace_variables : Bool → Text → Text
brace_variables inside [] = close_variable inside []
brace_variables inside (c ∷ s) =
    let opened = brace_variables true s in
    let closed = brace_variables false s in
    if inside && is_word c
    then c ∷ opened
    else close_variable inside
        (if c == b':' && starts_variable s then b'{' ∷ opened else c ∷ closed)

-- What stands before the next closing brace.
unfoldable pub up_to_close : Text → Option Text
up_to_close [] = none
up_to_close (c ∷ s) =
    let rest = up_to_close s in
    if c == b'}' then some [] else elim rest [ none ↦ none | some t ↦ some (c ∷ t) ]

-- The matches of `/\{[^}]+\}/g` without their braces; within a match, `skipping` to its end.
abbrev pub add_match : Option Text → List Text → List Text → List Text
add_match (some (c ∷ t)) behind next = (c ∷ t) ∷ behind
add_match found behind next = next

unfoldable pub matches_from : Bool → Text → List Text
matches_from skipping [] = []
matches_from skipping (c ∷ s) =
    let skip = matches_from true s in
    let next = matches_from false s in
    if skipping
    then (if c == b'}' then next else skip)
    else if c == b'{'
    then add_match (up_to_close s) skip next
    else next

unfoldable pub strip_front : Text → Text
strip_front [] = []
strip_front (c ∷ s) = let rest = strip_front s in if is_word c then c ∷ s else rest

unfoldable pub strip_back : Text → Text
strip_back [] = []
strip_back (c ∷ s) = elim (strip_back s) [
  | [] ↦ if is_word c then c ∷ [] else []
  | d ∷ r ↦ c ∷ d ∷ r
]

-- `removeNonChars`
abbrev pub remove_non_chars : Text → List Text
remove_non_chars name = split b',' (strip_back (strip_front name))

unfoldable pub names_of : List Text → List Text
names_of [] = []
names_of (m ∷ ms) = remove_non_chars m ++ names_of ms

-- `extractUrlVariableNames`
unfoldable pub extract_url_variable_names : Text → List Text
extract_url_variable_names url = names_of (matches_from false url)
