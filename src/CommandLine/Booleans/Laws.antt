-- ===== src/CommandLine/Booleans/Laws.antt =====
-- What the two passes of ts-command-line-args over the arguments do (examples/add-runner.js,
-- module 5344).
use github_runner_autoscaler.Common.Dict.{insert}
use github_runner_autoscaler.Common.{
  ◌≡◌, ◌≢◌, refl, arith, ap, sym, ◌∙◌, Text, codes, text_eq, text_eq→eq, Bool, true, false, not,
  List, [], ◌∷◌, ◌++◌, All, all, Option, none, some, if◌then◌else◌, Bool-cases, inl, inr,
  append_assoc, append-nil,
}
use mathlib.Core.Path.{subst}
use github_runner_autoscaler.CommandLine.Syntax.{dash, is_some}
use github_runner_autoscaler.CommandLine.Definitions.{Definition, is_boolean, one, boolean, find}
use github_runner_autoscaler.CommandLine.Output.{Object}
use github_runner_autoscaler.CommandLine.Booleans.{
  ArgumentConfig, is_word, word, with_value, arg_name, matches, Param, get_param_config, is_flag,
  option_of, flag_value, Kept, remove_boolean_args, remove_from, remove_boolean_values,
  convert_boolean, Found, stored_last, stored_value, stored, get_boolean_args, get_from,
  get_boolean_values,
}

-- The argument names no Boolean option.
abbrev pub NamesNoFlag : List ArgumentConfig → Text → Type 0
NamesNoFlag config arg = is_flag (option_of (get_param_config config arg)) ≡ false

flag_value_none :
    (p : Option Param) → is_flag (option_of p) ≡ false → is_some (flag_value p) ≡ false
flag_value_none none h = refl
flag_value_none (some p) h = rw h

remove-step :
    (config : List ArgumentConfig) (k : Kept) (arg : Text)
    → is_flag k.last_option ≡ false
    → NamesNoFlag config arg
    → remove_boolean_args config k arg ≡ record {
      args = k.args ++ (arg ∷ []);
      last_option = option_of (get_param_config config arg);
    }
unfolding remove_boolean_args
remove-step config k arg l h = rw (l, flag_value_none (get_param_config config arg) h)

remove_from-NamesNoFlag :
    (config : List ArgumentConfig) (k : Kept) (args : List Text)
    → is_flag k.last_option ≡ false
    → All (NamesNoFlag config) args
    → (remove_from config k args).args ≡ k.args ++ args
unfolding remove_from
remove_from-NamesNoFlag config k [] l h = sym (append-nil k.args)
remove_from-NamesNoFlag config k (arg ∷ args) l (h, hs) =
    ap (λ s. (remove_from config s args).args) (remove-step config k arg l h)
    ∙ remove_from-NamesNoFlag config
        (record {
          args = k.args ++ (arg ∷ []);
          last_option = option_of (get_param_config config arg);
        })
        args h hs
    ∙ append_assoc k.args (arg ∷ []) args

stored_last-NamesNoFlag :
    (last : Option Definition) (arg : Text) (obj : Object)
    → is_flag last ≡ false
    → stored_last last arg obj ≡ obj
stored_last-NamesNoFlag none arg obj h = refl
stored_last-NamesNoFlag (some d) arg obj h = rw h

stored_value-NamesNoFlag :
    (d : Definition) (v : Option Text) (last : Option Definition) (arg : Text) (obj : Object)
    → is_boolean d ≡ false
    → is_flag last ≡ false
    → stored_value d v last arg obj ≡ obj
stored_value-NamesNoFlag d none last arg obj hp hl = stored_last-NamesNoFlag last arg obj hl
stored_value-NamesNoFlag d (some v) last arg obj hp hl =
    rw hp (stored_last-NamesNoFlag last arg obj hl)

stored-NamesNoFlag :
    (p : Option Param) (last : Option Definition) (arg : Text) (obj : Object)
    → is_flag (option_of p) ≡ false
    → is_flag last ≡ false
    → stored p last arg obj ≡ obj
stored-NamesNoFlag none last arg obj hp hl = stored_last-NamesNoFlag last arg obj hl
stored-NamesNoFlag (some p) last arg obj hp hl =
    stored_value-NamesNoFlag p.option p.value last arg obj hp hl

get_from-NamesNoFlag :
    (config : List ArgumentConfig) (f : Found) (args : List Text)
    → is_flag f.last_option ≡ false
    → All (NamesNoFlag config) args
    → (get_from config f args).partial ≡ f.partial
unfolding get_from get_boolean_args
get_from-NamesNoFlag config f [] l h = refl
get_from-NamesNoFlag config f (arg ∷ args) l (h, hs) =
    get_from-NamesNoFlag config (get_boolean_args config f arg) args h hs
    ∙ stored-NamesNoFlag (get_param_config config arg) f.last_option arg f.partial h l

-- Arguments of which none names a Boolean option go to the parser unchanged, and no Boolean is
-- read from them.
pub boolean_passes-NamesNoFlag :
    (config : List ArgumentConfig) (args : List Text)
    → All (NamesNoFlag config) args
    → (remove_boolean_values config args ≡ args) × (get_boolean_values config args ≡ [])
unfolding remove_boolean_values get_boolean_values
boolean_passes-NamesNoFlag config args h = (
  remove_from-NamesNoFlag config (record { args = []; last_option = none }) args refl h,
  get_from-NamesNoFlag config (record { partial = []; last_option = none }) args refl h,
)

-- A text of one or more word characters.
abbrev pub IsWord : Text → Type 0
IsWord s = (s ≢ []) × (all is_word s ≡ true)

word_lem : (n v : Text) → all is_word n ≡ true → word (n ++ (b'=' ∷ v)) ≡ (n, b'=' ∷ v)
unfolding word
word_lem [] v h = refl
word_lem (c ∷ n) v h = ground (arith, h, word_lem n v)

-- `--name=value`
pub assignment : Text → Text → Text
assignment n v = dash ∷ dash ∷ n ++ (b'=' ∷ v)

with_value_lem : (n v : Text) → IsWord v → with_value n (b'=' ∷ v) ≡ some (n, some v)
with_value_lem n [] (h, _) = elim (h refl) [ ]
with_value_lem n (d ∷ s) (_, h) = rw h

pub arg_name-assignment :
    (n v : Text) → IsWord n → IsWord v → arg_name (assignment n v) ≡ some (n, some v)
unfolding arg_name assignment
arg_name-assignment [] v (h, _) hv = elim (h refl) [ ]
arg_name-assignment (c ∷ n) v (_, h) hv = rw (word_lem (c ∷ n) v h) (with_value_lem (c ∷ n) v hv)

param-assignment :
    (config : List ArgumentConfig) (n v : Text) (c : ArgumentConfig)
    → IsWord n
    → IsWord v
    → find (matches n) config ≡ some c
    → get_param_config config (assignment n v)
      ≡ some (record { option = c.definition; value = some v })
unfolding get_param_config
param-assignment config n v c hn hv f = rw (arg_name-assignment n v hn hv, f)

convert_boolean_lem : (v : Text) → IsWord v → convert_boolean v ≡ not (text_eq v (codes "false"))
unfolding convert_boolean
convert_boolean_lem [] (h, _) = elim (h refl) [ ]
convert_boolean_lem (c ∷ s) _ = elim (Bool-cases (text_eq (c ∷ s) (codes "true"))) [
  | inl e ↦
      subst (λ v. convert_boolean v ≡ not (text_eq v (codes "false")))
        (sym (text_eq→eq (c ∷ s) (codes "true") e)) refl
  | inr e ↦ rw e (other_word (text_eq (c ∷ s) (codes "false")))
]
  where
    other_word : (b : Bool) → (if b then false else true) ≡ not b
    other_word true = refl
    other_word false = refl

remove-assignment :
    (config : List ArgumentConfig) (args : List Text) (n v : Text) (c : ArgumentConfig)
    → IsWord n
    → IsWord v
    → find (matches n) config ≡ some c
    → is_boolean c.definition ≡ true
    → remove_boolean_args config (record { args = args; last_option = none }) (assignment n v)
      ≡ record { args = args; last_option = none }
unfolding remove_boolean_args
remove-assignment config args n v c hn hv f b = rw (param-assignment config n v c hn hv f, b)

get-assignment :
    (config : List ArgumentConfig) (obj : Object) (n v : Text) (c : ArgumentConfig)
    → IsWord n
    → IsWord v
    → find (matches n) config ≡ some c
    → is_boolean c.definition ≡ true
    → get_boolean_args config (record { partial = obj; last_option = none }) (assignment n v)
      ≡ record {
        partial = insert c.definition.name (one (boolean (not (text_eq v (codes "false"))))) obj;
        last_option = some c.definition;
      }
unfolding get_boolean_args
get-assignment config obj n v c hn hv f b =
    rw (param-assignment config n v c hn hv f, b, convert_boolean_lem v hv)

-- For `--name=value` of a Boolean option, the name and the value one or more word characters, the
-- argument is removed before the parser sees it, and the option gets false for the value `false`
-- and true for any other, `0` included.
pub boolean_passes-assignment :
    (config : List ArgumentConfig) (n v : Text) (c : ArgumentConfig)
    → IsWord n
    → IsWord v
    → find (matches n) config ≡ some c
    → is_boolean c.definition ≡ true
    → (remove_boolean_values config (assignment n v ∷ []) ≡ [])
      × (get_boolean_values config (assignment n v ∷ [])
          ≡ (c.definition.name, one (boolean (not (text_eq v (codes "false"))))) ∷ [])
unfolding remove_boolean_values get_boolean_values remove_from get_from insert
boolean_passes-assignment config n v c hn hv f b = (
  ap (λ k. k.args) (remove-assignment config [] n v c hn hv f b),
  ap (λ k. k.partial) (get-assignment config [] n v c hn hv f b),
)
