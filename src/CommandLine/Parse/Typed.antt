-- ===== src/CommandLine/Parse/Typed.antt =====
-- The values that `parse` returns are of the options' types (examples/add-runner.js, modules 6512 and
-- 5344).
use github_runner_autoscaler.Common.Dict.{insert}
use github_runner_autoscaler.Common.{
  ◌≡◌, refl, arith, Text, text_eq, Bool, true, false, List, [], ◌∷◌, All, Option, none, some,
  Bool-cases, inl, inr, Result, ok, err,
}
use mathlib.Core.Path.{subst}
use github_runner_autoscaler.CommandLine.Definitions.{
  Definition, Kind, string_kind, number_kind, boolean_kind, Value, one, boolean, ParseError,
  is_boolean, is_boolean_kind, is_multiple, find, contains,
}
use github_runner_autoscaler.CommandLine.Output.{Object, command_line_args}
use github_runner_autoscaler.CommandLine.Output.Typed.{
  FitsOption, HasFittingDefault, Member, IsOptionValue, command_line_args-typed,
}
use github_runner_autoscaler.CommandLine.Booleans.{
  ArgumentConfig, matches, Param, param_of, look_up, arg_name, get_param_config, boolean_values,
  option_of, convert_boolean, Found, stored_last, stored_value, stored, get_boolean_args, get_from,
  get_boolean_values, remove_boolean_values,
}
use github_runner_autoscaler.CommandLine.Parse.{
  returned, option_list, assign, is_missing, fill_booleans, finish, finish_result, parse,
}

-- No option takes several values.
abbrev pub AreSingle : List ArgumentConfig → Type 0
AreSingle cs = All (λ c. is_multiple c.definition ≡ false) cs

module _ (config : List ArgumentConfig) where
  -- The entry is a value of an option, of its type.
  abbrev IsTyped : Text × Value → Type 0
  IsTyped e = IsOptionValue (option_list config) e.0 e.1

  abbrev AreTyped : Object → Type 0
  AreTyped obj = All IsTyped obj

  -- An option of the configuration.
  abbrev IsOurs : Definition → Type 0
  IsOurs d = Member d (option_list config)

  AreTyped-insert :
      (k : Text) (v : Value) (obj : Object)
      → IsTyped (k, v)
      → AreTyped obj
      → AreTyped (insert k v obj)
  unfolding insert
  AreTyped-insert k v [] h hs = (h, tt)
  AreTyped-insert k v ((j, w) ∷ obj) h (hw, hs) = elim (Bool-cases (text_eq j k)) [
    | inl e ↦ rw e (h, hs)
    | inr e ↦ rw e (hw, AreTyped-insert k v obj h hs)
  ]

  AreTyped-assign : (obj more : Object) → AreTyped obj → AreTyped more → AreTyped (assign obj more)
  unfolding assign
  AreTyped-assign obj [] h hm = h
  AreTyped-assign obj ((k, v) ∷ more) h (hv, hm) =
      AreTyped-assign (insert k v obj) more (AreTyped-insert k v obj hv h) hm

  fits_boolean :
      (several : Bool) (k : Kind) (b : Bool)
      → several ≡ false
      → k ≡ boolean_kind
      → FitsOption several k (one (boolean b))
  fits_boolean several k b s e = rw (s, e) tt

  boolean_kind_of : (d : Definition) → is_boolean d ≡ true → d.kind ≡ boolean_kind
  boolean_kind_of d h = kind_of d.kind h
    where
      kind_of : (k : Kind) → is_boolean_kind k ≡ true → k ≡ boolean_kind
      kind_of boolean_kind e = refl
      kind_of string_kind e = absurd (ground (arith, e))
      kind_of number_kind e = absurd (ground (arith, e))

  IsTyped-boolean :
      (d : Definition) (b : Bool)
      → IsOurs d
      → is_boolean d ≡ true
      → is_multiple d ≡ false
      → IsTyped (d.name, one (boolean b))
  IsTyped-boolean d b m h s =
      (d, m, refl, fits_boolean (is_multiple d) d.kind b s (boolean_kind_of d h))

  -- Nothing, or an option of the configuration that takes one value.
  abbrev IsSingle : Option Definition → Type 0
  IsSingle none = Unit
  IsSingle (some d) = IsOurs d × (is_multiple d ≡ false)

  AreTyped-stored_last :
      (last : Option Definition) (arg : Text) (obj : Object)
      → IsSingle last
      → AreTyped obj
      → AreTyped (stored_last last arg obj)
  AreTyped-stored_last none arg obj l h = h
  AreTyped-stored_last (some d) arg obj (m, s) h = elim (Bool-cases (is_boolean d)) [
    | inl b ↦ elim (Bool-cases (contains boolean_values arg)) [
      | inl c ↦
          rw (b, c)
            (AreTyped-insert d.name (one (boolean (convert_boolean arg))) obj
              (IsTyped-boolean d (convert_boolean arg) m b s) h)
      | inr c ↦ rw (b, c) h
    ]
    | inr b ↦ rw b h
  ]

  AreTyped-stored_value :
      (d : Definition) (v : Option Text) (last : Option Definition) (arg : Text) (obj : Object)
      → IsSingle (some d)
      → IsSingle last
      → AreTyped obj
      → AreTyped (stored_value d v last arg obj)
  AreTyped-stored_value d none last arg obj m l h = AreTyped-stored_last last arg obj l h
  AreTyped-stored_value d (some v) last arg obj (m, s) l h = elim (Bool-cases (is_boolean d)) [
    | inl b ↦ rw b (
        AreTyped-insert d.name (one (boolean (convert_boolean v))) obj
          (IsTyped-boolean d (convert_boolean v) m b s) h)
    | inr b ↦ rw b (AreTyped-stored_last last arg obj l h)
  ]

  AreTyped-stored :
      (p : Option Param) (last : Option Definition) (arg : Text) (obj : Object)
      → IsSingle (option_of p)
      → IsSingle last
      → AreTyped obj
      → AreTyped (stored p last arg obj)
  AreTyped-stored none last arg obj m l h = AreTyped-stored_last last arg obj l h
  AreTyped-stored (some p) last arg obj m l h =
      AreTyped-stored_value p.option p.value last arg obj m l h

  find-IsSingle :
      (p : ArgumentConfig → Bool) (v : Option Text) (cs : List ArgumentConfig)
      → ((d : Definition) → Member d (option_list cs) → IsOurs d)
      → AreSingle cs
      → IsSingle (option_of (param_of (find p cs) v))
  unfolding find
  find-IsSingle p v [] m h = tt
  find-IsSingle p v (c ∷ cs) m (hc, h) = elim (Bool-cases (p c)) [
    | inl e ↦ rw e (m c.definition (inl refl), hc)
    | inr e ↦ rw e (find-IsSingle p v cs (λ d k. m d (inr k)) h)
  ]

  param-IsSingle :
      (arg : Text) → AreSingle config → IsSingle (option_of (get_param_config config arg))
  unfolding get_param_config
  param-IsSingle arg h = found (arg_name arg)
    where
      found : (o : Option (Text × Option Text)) → IsSingle (option_of (look_up config o))
      found none = tt
      found (some (n, v)) = find-IsSingle (matches n) v config (λ d k. k) h

  AreTyped-get_from :
      (f : Found) (args : List Text)
      → AreSingle config
      → IsSingle f.last_option
      → AreTyped f.partial
      → AreTyped (get_from config f args).partial
  unfolding get_from get_boolean_args
  AreTyped-get_from f [] s l h = h
  AreTyped-get_from f (arg ∷ args) s l h =
      AreTyped-get_from (get_boolean_args config f arg) args s (param-IsSingle arg s) (
        AreTyped-stored (get_param_config config arg) f.last_option arg f.partial
          (param-IsSingle arg s) l h)

  AreTyped-fill :
      (cs : List ArgumentConfig) (before obj : Object)
      → ((d : Definition) → Member d (option_list cs) → IsOurs d)
      → AreSingle cs
      → AreTyped obj
      → AreTyped (fill_booleans cs before obj)
  unfolding fill_booleans
  AreTyped-fill [] before obj m s h = h
  AreTyped-fill (c ∷ cs) before obj m (sc, s) h = elim (Bool-cases (is_missing before c)) [
    | inl e ↦ elim (Bool-cases (is_boolean c.definition)) [
      | inl b ↦
          rw (e, b)
            (AreTyped-fill cs before (insert c.definition.name (one (boolean false)) obj)
              (λ d k. m d (inr k)) s
              (AreTyped-insert c.definition.name (one (boolean false)) obj
                (IsTyped-boolean c.definition false (m c.definition (inl refl)) b sc) h))
      | inr b ↦ rw (e, b) (AreTyped-fill cs before obj (λ d k. m d (inr k)) s h)
    ]
    | inr e ↦ rw e (AreTyped-fill cs before obj (λ d k. m d (inr k)) s h)
  ]

  AreTyped-finish :
      (truth : Text → Bool) (help_arg : Option Text) (exit_process : Bool) (before obj : Object)
      → AreSingle config
      → AreTyped before
      → finish truth config help_arg exit_process before ≡ returned obj
      → AreTyped obj
  unfolding finish
  AreTyped-finish truth help_arg exit_process before obj s h e =
      let same : fill_booleans config before before ≡ obj = ground (arith, e) in
      subst AreTyped same (AreTyped-fill config before before (λ d k. k) s h)

  AreTyped-finish_result :
      (truth : Text → Bool) (help_arg : Option Text) (exit_process : Bool) (booleans : Object)
      (r : Result ParseError Object) (obj : Object)
      → AreSingle config
      → AreTyped booleans
      → ((o : Object) → r ≡ ok o → AreTyped o)
      → finish_result truth config help_arg exit_process booleans r ≡ returned obj
      → AreTyped obj
  AreTyped-finish_result truth help_arg exit_process booleans (ok o) obj s hb h e =
      AreTyped-finish truth help_arg exit_process (assign o booleans) obj s
        (AreTyped-assign o booleans (h o refl) hb) e
  AreTyped-finish_result truth help_arg exit_process booleans (err x) obj s hb h e =
      absurd (ground (arith, e))

  -- If parse returns an object, each default value is of its option's type, and no option takes
  -- several values, every entry of the object is the value of an option of that name: a text, a
  -- number or a Boolean by the option's type, or nothing.
  pub parse-typed :
      (truth : Text → Bool) (help_arg : Option Text) (exit_process : Bool) (argv : List Text)
      (obj : Object)
      → AreSingle config
      → All HasFittingDefault (option_list config)
      → parse truth config help_arg exit_process argv ≡ returned obj
      → All (λ e. IsOptionValue (option_list config) e.0 e.1) obj
  unfolding parse get_boolean_values
  parse-typed truth help_arg exit_process argv obj s d e =
      AreTyped-finish_result truth help_arg exit_process (get_boolean_values config argv)
        (command_line_args (option_list config) false false (remove_boolean_values config argv)) obj
        s (AreTyped-get_from (record { partial = []; last_option = none }) argv s tt tt)
        (λ o h.
          command_line_args-typed (option_list config) (remove_boolean_values config argv) o d h)
        e
