-- ===== src/CommandLine/Parser/Events.antt =====
-- What holds of every definition holds of those that the parser meets (examples/add-runner.js,
-- module 8098).
use github_runner_autoscaler.Common.{
  ◌≡◌, refl, arith, Text, text_eq, Bool, true, false, ◌&&◌, List, [], ◌∷◌, All, All-append,
  Bool-cases, inl, inr, Option, some, none, Option-cases,
}
use github_runner_autoscaler.CommandLine.Syntax.{
  is_option, short, is_some, get_option_name, opt_equals,
}
use github_runner_autoscaler.CommandLine.Definitions.{
  Definition, is_boolean, find, get, get_default, same, is_default,
}
use github_runner_autoscaler.CommandLine.Parser.{
  Given, ParserState, ArgInfo, Reading, step, carried, read_option, read_equals, read_default,
  read_value, extra, unknown_name, info, yield,
}

module _ (P : Definition → Type 0) where
  abbrev pub Holds : Option Definition → Type 0
  Holds none = Unit
  Holds (some d) = P d

  -- An event is about a definition with the property under that definition's name, or is about
  -- the unknown arguments.
  pub data IsAbout : ArgInfo → Type 0 where
    known : (a : ArgInfo) (d : Definition) → a.def ≡ some d → a.name ≡ d.name → P d → IsAbout a
    stray : (a : ArgInfo) → a.name ≡ unknown_name → IsAbout a

  find-Holds : (p : Definition → Bool) (defs : List Definition) → All P defs → Holds (find p defs)
  unfolding find
  find-Holds p [] h = tt
  find-Holds p (d ∷ defs) (hd, h) = elim (Bool-cases (p d)) [
    | inl e ↦ rw e hd
    | inr e ↦ rw e (find-Holds p defs h)
  ]

  pub get-Holds : (defs : List Definition) (arg : Text) → All P defs → Holds (get defs arg)
  get-Holds defs arg h = elim (Bool-cases (is_option arg)) [
    | inl o ↦ elim (Bool-cases (is_some (short arg))) [
      | inl s ↦
          unfold get in rw (o, s) (find-Holds (λ d. same d.alias (get_option_name arg)) defs h)
      | inr s ↦
          unfold get in
          rw (o, s) (find-Holds (λ d. same (some d.name) (get_option_name arg)) defs h)
    ]
    | inr o ↦ unfold get in rw o (find-Holds (λ d. text_eq d.name arg) defs h)
  ]

  get_default-Holds : (defs : List Definition) → All P defs → Holds (get_default defs)
  get_default-Holds defs h =
      unfold get_default in find-Holds (λ d. is_default d.default_option) defs h

  info-IsAbout : (arg : Text) (r : Reading) → Holds r.def → IsAbout (info arg r)
  info-IsAbout arg r h = elim (Option-cases r.def) [
    | inl e ↦ stray (info arg r) (rw e)
    | inr (d, e) ↦ known (info arg r) d e (rw e) (rw e at h)
  ]

  carried-Holds : (d : Option Definition) (v : Given) → Holds d → Holds (carried d v)
  carried-Holds none v h = tt
  carried-Holds (some d) v h = ground arith

  extra-IsAbout : (arg : Text) (d : Option Definition) → All IsAbout (extra arg d)
  extra-IsAbout arg none = tt
  extra-IsAbout arg (some d) = elim (Bool-cases (is_boolean d)) [
    | inl e ↦ rw e (stray _ refl, tt)
    | inr e ↦ rw e tt
  ]

  read_option-Holds : (d : Option Definition) → Holds d → Holds (read_option d).def
  read_option-Holds none h = tt
  read_option-Holds (some d) h = h

  read_equals-Holds : (d : Option Definition) (v : Text) → Holds d → Holds (read_equals d v).def
  read_equals-Holds none v h = tt
  read_equals-Holds (some d) v h = h

  read_default-Holds :
      (d : Option Definition) (b : Bool) (arg : Text) → Holds d → Holds (read_default d b arg).def
  read_default-Holds (some d) false arg h = h
  read_default-Holds (some d) true arg h = tt
  read_default-Holds none b arg h = tt

  read_value-Holds :
      (defs : List Definition) (st : ParserState) (arg : Text)
      → All P defs
      → Holds st.def
      → Holds (read_value defs st arg).def
  read_value-Holds defs st arg h k = elim (Option-cases st.def) [
    | inl e ↦ rw e (
        read_default-Holds (get_default defs) st.singular_default_set arg
          (get_default-Holds defs h))
    | inr (d, e) ↦ rw e (rw e at k)
  ]

  -- What one round yields and leaves.
  abbrev pub RoundHolds : List ArgInfo × ParserState → Type 0
  RoundHolds r = All IsAbout r.0 × Holds r.1.def

  yield-Holds :
      (st : ParserState) (arg : Text) (before : List ArgInfo) (r : Reading)
      → All IsAbout before
      → Holds r.def
      → RoundHolds (yield st arg before r)
  yield-Holds st arg before r b h = (
    All-append IsAbout before (info arg r ∷ []) b (info-IsAbout arg r h, tt),
    carried-Holds r.def r.value h,
  )

  pub step-Holds :
      (defs : List Definition) (stop : Bool) (st : ParserState) (arg : Text)
      → All P defs
      → Holds st.def
      → RoundHolds (step defs stop st arg)
  step-Holds defs stop st arg h k = elim (Bool-cases (st.unknown_found && stop)) [
    | inl e ↦ unfold step in rw e ((stray _ refl, tt), k)
    | inr e ↦ elim (Bool-cases (is_option arg)) [
      | inl o ↦
          unfold step in
          rw (e, o)
            (yield-Holds st arg [] (read_option (get defs arg)) tt
              (read_option-Holds (get defs arg) (get-Holds defs arg h)))
      | inr o ↦ elim (Option-cases (opt_equals arg)) [
        | inl n ↦
            unfold step in
            rw (e, o, n)
              (yield-Holds st arg [] (read_value defs st arg) tt (read_value-Holds defs st arg h k))
        | inr ((n, v), q) ↦
            unfold step in
            rw (e, o, q)
              (yield-Holds st arg (extra arg (get defs n)) (read_equals (get defs n) v)
                (extra-IsAbout arg (get defs n))
                (read_equals-Holds (get defs n) v (get-Holds defs n h)))
      ]
    ]
  ]
