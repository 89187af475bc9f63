-- ===== src/CommandLine/Parse/Laws.antt =====
-- What `parse` returns (examples/add-runner.js, module 6512).
use github_runner_autoscaler.Common.Dict.{insert, lookup, lookup-insert}
use github_runner_autoscaler.Common.{
  ◌≡◌, arith, Text, text_eq, text_eq_refl, Bool, true, false, ◌&&◌, List, [], ◌∷◌, All, Option,
  if◌then◌else◌, Bool-cases, inl, inr, Result, ok, err,
}
use mathlib.Core.Path.{subst}
use github_runner_autoscaler.CommandLine.Definitions.{one, boolean, ParseError, is_boolean}
use github_runner_autoscaler.CommandLine.Output.{Object, command_line_args}
use github_runner_autoscaler.CommandLine.Booleans.{
  ArgumentConfig, remove_boolean_values, get_boolean_values,
}
use github_runner_autoscaler.CommandLine.Parse.{
  returned, option_list, assign, is_absent, is_missing, list_missing, fill_booleans, asks_help,
  is_nil, finish, finish_result, parse,
}

-- A name that has a value keeps having one.
absent_insert :
    (k n : Text) (m : Object)
    → is_absent (lookup n m) ≡ false
    → is_absent (lookup n (insert k (one (boolean false)) m)) ≡ false
absent_insert k n m h = elim (Bool-cases (text_eq k n)) [
  | inl e ↦ rw (lookup-insert k n (one (boolean false)) m, e)
  | inr e ↦ rw (lookup-insert k n (one (boolean false)) m, e) h
]

absent_fill :
    (config : List ArgumentConfig) (before obj : Object) (n : Text)
    → is_absent (lookup n obj) ≡ false
    → is_absent (lookup n (fill_booleans config before obj)) ≡ false
unfolding fill_booleans
absent_fill [] before obj n h = h
absent_fill (c ∷ config) before obj n h =
    elim (Bool-cases (is_missing before c && is_boolean c.definition)) [
      | inl e ↦ rw e (
          absent_fill config before (insert c.definition.name (one (boolean false)) obj) n
            (absent_insert c.definition.name n obj h))
      | inr e ↦ rw e (absent_fill config before obj n h)
    ]

-- After the filling no option of the list is missing.
fill_head :
    (config : List ArgumentConfig) (before obj : Object) (c : ArgumentConfig)
    → is_missing before c ≡ true
    → is_boolean c.definition ≡ true
    → is_absent (lookup c.definition.name (fill_booleans (c ∷ config) before obj)) ≡ false
unfolding fill_booleans
fill_head config before obj c m b =
    rw (m, b)
      (absent_fill config before (insert c.definition.name (one (boolean false)) obj)
        c.definition.name
        (rw (
          lookup-insert c.definition.name c.definition.name (one (boolean false)) obj,
          text_eq_refl c.definition.name,
        )))

is_missing_of_present :
    (c : ArgumentConfig) (obj : Object)
    → is_absent (lookup c.definition.name obj) ≡ false
    → is_missing obj c ≡ false
is_missing_of_present c obj h = ground (arith, h)

pub present_of_present :
    (c : ArgumentConfig) (obj : Object)
    → c.optional ≡ false
    → is_missing obj c ≡ false
    → is_absent (lookup c.definition.name obj) ≡ false
present_of_present c obj o m = ground (arith, o, m)

is_missing_of_optional :
    (c : ArgumentConfig) (obj : Object) → c.optional ≡ true → is_missing obj c ≡ false
is_missing_of_optional c obj o = rw o

-- With nothing to report, an option that was missing is Boolean.
boolean_of_missing :
    (c : ArgumentConfig) (config : List ArgumentConfig) (before : Object)
    → is_nil (list_missing (c ∷ config) before) ≡ true
    → is_missing before c ≡ true
    → is_boolean c.definition ≡ true
unfolding list_missing
boolean_of_missing c config before h m = ground (arith, h, m)

tail_is_nil :
    (c : ArgumentConfig) (config : List ArgumentConfig) (before : Object)
    → is_nil (list_missing (c ∷ config) before) ≡ true
    → is_nil (list_missing config before) ≡ true
unfolding list_missing
tail_is_nil c config before h = ground (arith, h)

-- Every option of the list that is not optional has a value in the object.
abbrev pub AllPresent : List ArgumentConfig → Object → Type 0
AllPresent config obj = All (λ c. is_missing obj c ≡ false) config

present_head :
    (c : ArgumentConfig) (config : List ArgumentConfig) (before obj : Object)
    → ((n : Text) → is_absent (lookup n before) ≡ false → is_absent (lookup n obj) ≡ false)
    → is_nil (list_missing (c ∷ config) before) ≡ true
    → is_missing (fill_booleans (c ∷ config) before obj) c ≡ false
present_head c config before obj keeps h = elim (Bool-cases (is_missing before c)) [
  | inl m ↦
      is_missing_of_present c (fill_booleans (c ∷ config) before obj)
        (fill_head config before obj c m (boolean_of_missing c config before h m))
  | inr m ↦ elim (Bool-cases c.optional) [
    | inl o ↦ is_missing_of_optional c (fill_booleans (c ∷ config) before obj) o
    | inr o ↦ is_missing_of_present c (fill_booleans (c ∷ config) before obj) (
        absent_fill (c ∷ config) before obj c.definition.name
          (keeps c.definition.name (present_of_present c before o m)))
  ]
]

-- The object that the tail is filled from.
filled_head : ArgumentConfig → Object → Object → Object
filled_head c before obj =
    if is_missing before c && is_boolean c.definition
    then insert c.definition.name (one (boolean false)) obj
    else obj

keeps_head :
    (c : ArgumentConfig) (before obj : Object) (n : Text)
    → is_absent (lookup n obj) ≡ false
    → is_absent (lookup n (filled_head c before obj)) ≡ false
unfolding filled_head
keeps_head c before obj n h = elim (Bool-cases (is_missing before c && is_boolean c.definition)) [
  | inl e ↦ rw e (absent_insert c.definition.name n obj h)
  | inr e ↦ rw e h
]

all_present :
    (config : List ArgumentConfig) (before obj : Object)
    → ((n : Text) → is_absent (lookup n before) ≡ false → is_absent (lookup n obj) ≡ false)
    → is_nil (list_missing config before) ≡ true
    → AllPresent config (fill_booleans config before obj)
unfolding fill_booleans filled_head
all_present [] before obj keeps h = tt
all_present (c ∷ config) before obj keeps h = (
  present_head c config before obj keeps h,
  all_present config before (filled_head c before obj)
      (λ n p. keeps_head c before obj n (keeps n p)) (tail_is_nil c config before h),
)

returned_fill :
    (truth : Text → Bool) (config : List ArgumentConfig) (help_arg : Option Text)
    (before obj : Object)
    → finish truth config help_arg true before ≡ returned obj
    → (fill_booleans config before before ≡ obj)
      × (is_nil (list_missing config before) ≡ true)
      × (asks_help truth help_arg (fill_booleans config before before) ≡ false)
unfolding finish
returned_fill truth config help_arg before obj h = ground (arith, h)

finish-returned :
    (truth : Text → Bool) (config : List ArgumentConfig) (help_arg : Option Text)
    (before obj : Object)
    → finish truth config help_arg true before ≡ returned obj
    → AllPresent config obj × (asks_help truth help_arg obj ≡ false)
finish-returned truth config help_arg before obj h =
    let r = returned_fill truth config help_arg before obj h in
    subst (λ o. AllPresent config o × (asks_help truth help_arg o ≡ false)) (r.0)
      (all_present config before before (λ n p. p) (r.1), r.2)

finish_result-returned :
    (truth : Text → Bool) (config : List ArgumentConfig) (help_arg : Option Text)
    (booleans : Object) (r : Result ParseError Object) (obj : Object)
    → finish_result truth config help_arg true booleans r ≡ returned obj
    → AllPresent config obj × (asks_help truth help_arg obj ≡ false)
finish_result-returned truth config help_arg booleans (ok o) obj h =
    finish-returned truth config help_arg (assign o booleans) obj h
finish_result-returned truth config help_arg booleans (err e) obj h = ground (arith, h)

-- If parse returns an object, where the process may be ended, every option of the configuration
-- that is not optional has a value there that is neither null nor undefined, and the help option
-- is not set.
pub parse-returned :
    (truth : Text → Bool) (config : List ArgumentConfig) (help_arg : Option Text) (argv : List Text)
    (obj : Object)
    → parse truth config help_arg true argv ≡ returned obj
    → AllPresent config obj × (asks_help truth help_arg obj ≡ false)
unfolding parse
parse-returned truth config help_arg argv obj h =
    finish_result-returned truth config help_arg (get_boolean_values config argv)
      (command_line_args (option_list config) false false (remove_boolean_values config argv)) obj h
