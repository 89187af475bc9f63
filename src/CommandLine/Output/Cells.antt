-- ===== src/CommandLine/Output/Cells.antt =====
-- What holds of the cells of an output while events are recorded (examples/add-runner.js, module
-- 8098).
use github_runner_autoscaler.Common.Dict.{insert, lookup}
use github_runner_autoscaler.Common.{
  ◌≡◌, arith, Text, text_eq, text_eq→eq, Bool, List, [], ◌∷◌, All, Bool-cases, inl, inr, some,
  Option-cases, ok, Result-cases,
}
use mathlib.Core.Path.{subst₂}
use github_runner_autoscaler.CommandLine.Definitions.{Definition}
use github_runner_autoscaler.CommandLine.Parser.{ArgInfo, Given, unknown_name}
use github_runner_autoscaler.CommandLine.Parser.Events.{IsAbout, known, stray}
use github_runner_autoscaler.CommandLine.Output.{
  Output, Cell, cell_of, create, definition_of, set_cell, event_value, record_event, record_events,
  insert_defaults, initial_output, has_value, unknown_definition,
}

-- A property of a name and a cell that a new cell of a known definition has, that setting keeps,
-- and that says nothing at the unknown arguments' name.
module _ (P : Definition → Type 0) (Q : Text → Cell → Type 0)
    (fresh : (d : Definition) → P d → Q d.name (create d))
    (kept : (k : Text) (c c' : Cell) (v : Given) → Q k c → set_cell c v ≡ ok c' → Q k c')
    (free : (c : Cell) → Q unknown_name c) where
  abbrev pub Inv : Output → Type 0
  Inv = All (λ e. Q e.0 e.1)

  lookup_holds : (k : Text) (out : Output) (c : Cell) → Inv out → lookup k out ≡ some c → Q k c
  unfolding lookup
  lookup_holds k [] c h e = absurd (ground arith)
  lookup_holds k ((j, d) ∷ out) c (hd, h) e = elim (Bool-cases (text_eq j k)) [
    | inl s ↦ let same : d ≡ c = ground arith in subst₂ Q (text_eq→eq j k s) same hd
    | inr s ↦ lookup_holds k out c h (ground arith)
  ]

  insert_holds : (k : Text) (c : Cell) (out : Output) → Inv out → Q k c → Inv (insert k c out)
  unfolding insert
  insert_holds k c [] h q = (q, tt)
  insert_holds k c ((j, d) ∷ out) (hd, h) q = elim (Bool-cases (text_eq j k)) [
    | inl s ↦ rw s (q, h)
    | inr s ↦ rw s (hd, insert_holds k c out h q)
  ]

  -- The cell that an event sets.
  abbrev pub target : Output → ArgInfo → Cell
  target out a = cell_of (lookup a.name out) (create (definition_of a.def))

  new_holds : (a : ArgInfo) → IsAbout P a → Q a.name (create (definition_of a.def))
  new_holds _ (known a d e n p) = rw (e, n) (fresh d p)
  new_holds _ (stray a n) = rw n (free (create (definition_of a.def)))

  pub target_holds : (out : Output) (a : ArgInfo) → Inv out → IsAbout P a → Q a.name (target out a)
  target_holds out a h about = elim (Option-cases (lookup a.name out)) [
    | inl e ↦ rw e (new_holds a about)
    | inr (c, e) ↦ rw e (lookup_holds a.name out c h e)
  ]

  pub record_event_holds :
      (partial : Bool) (out out' : Output) (a : ArgInfo)
      → Inv out
      → IsAbout P a
      → record_event partial out a ≡ ok out'
      → Inv out'
  unfolding record_event
  record_event_holds partial out out' a h about e =
      elim (Result-cases (set_cell (target out a) (event_value a))) [
        | inl (c, s) ↦
            let q = kept a.name (target out a) c (event_value a) (target_holds out a h about) s in
            let same : insert a.name c out ≡ out' = ground (arith, s) in
            rw same at (insert_holds a.name c out h q)
        | inr (x, s) ↦ absurd (ground (arith, s))
      ]

  pub record_events_holds :
      (partial : Bool) (out out' : Output) (events : List ArgInfo)
      → Inv out
      → All (IsAbout P) events
      → record_events partial out events ≡ ok out'
      → Inv out'
  unfolding record_events
  record_events_holds partial out out' [] h about e =
      let same : out ≡ out' = ground arith in rw same at h
  record_events_holds partial out out' (a ∷ events) h (hd, about) e =
      elim (Result-cases (record_event partial out a)) [
        | inl (o, s) ↦
            record_events_holds partial o out' events (record_event_holds partial out o a h hd s)
              about (rw s at e)
        | inr (x, s) ↦ absurd (ground (arith, s))
      ]

  insert_defaults_holds :
      (defs : List Definition) (out : Output)
      → All P defs
      → Inv out
      → Inv (insert_defaults defs out)
  unfolding insert_defaults
  insert_defaults_holds [] out h i = i
  insert_defaults_holds (d ∷ defs) out (hd, h) i = elim (Bool-cases (has_value d.default_value)) [
    | inl e ↦ rw e (
        insert_defaults_holds defs (insert d.name (create d) out) h
          (insert_holds d.name (create d) out i (fresh d hd)))
    | inr e ↦ rw e (insert_defaults_holds defs out h i)
  ]

  pub initial_output_holds : (defs : List Definition) → All P defs → Inv (initial_output defs)
  initial_output_holds defs h =
      unfold initial_output in
      insert_defaults_holds defs ((unknown_name, create unknown_definition) ∷ []) h
        (free (create unknown_definition), tt)
