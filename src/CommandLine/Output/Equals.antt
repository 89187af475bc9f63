-- ===== src/CommandLine/Output/Equals.antt =====
-- `--name=value` is `--name value` (examples/add-runner.js, module 8098).
pub mod Steps
use github_runner_autoscaler.Common.Dict.{insert, lookup}
use github_runner_autoscaler.Common.{
  ◌≡◌, ◌≢◌, ◌⊎◌, All, refl, ap, ◌∙◌, sym, arith, Text, text_eq, text_eq_refl, text_eq_iff,
  text_eq→eq, Bool, true, false, List, [], ◌∷◌, ◌++◌, Bool-cases, inl, inr, some, Result, ok, err,
  Result-cases, ◌>>=◌,
}
use mathlib.Core.Path.{subst}
use github_runner_autoscaler.CommandLine.Syntax.{get_option_name, is_value}
use github_runner_autoscaler.CommandLine.Syntax.Forms.{
  IsName, IsLine, long_arg, equals_arg, opt_equals-some, is_option-long_arg, is_option-equals_arg,
  combined_short-dashes, is_value_parts, get_option_name-long_arg, short-long_arg,
}
use github_runner_autoscaler.CommandLine.Definitions.{
  Definition, is_boolean, ParseError, get, find, same,
}
use github_runner_autoscaler.CommandLine.Parser.{
  Given, empty, given, ParserState, ArgInfo, start, step, unknown_name, set, Reading, info,
  next_state,
}
use github_runner_autoscaler.CommandLine.Parser.Laws.{texts, texts_plain, texts-append}
use github_runner_autoscaler.CommandLine.Output.{
  Output, Cell, cell_of, create, set_cell, record_event, record_events, initial_output, to_object,
  command_line_args,
}
use github_runner_autoscaler.CommandLine.Output.Laws.{
  read_texts, of_texts, command_line_args-of_texts, validate-cases,
}
use github_runner_autoscaler.CommandLine.Parser.Events.{
  Holds, IsAbout, known, step-Holds, get-Holds,
}
use github_runner_autoscaler.CommandLine.Output.Cells.{
  Inv, target_holds, record_events_holds, initial_output_holds,
}
use github_runner_autoscaler.CommandLine.Output.Equals.Steps.{
  IsAlike, alike_bind, IsNoFlag, IsCell, kept, IsSound, sets, join, get-name,
}

-- The name `n` of an option that is not the reserved one.
module _ (n : Text) (not_unknown : unknown_name ≢ n) where
  no_flag : (d : Definition) → d.name ≡ n → (IsNoFlag n not_unknown) d → is_boolean d ≡ false
  no_flag d e (inl h) = absurd (h e)
  no_flag d e (inr h) = h

  no_cell : (c : Cell) → (IsCell n not_unknown) n c → is_boolean c.def ≡ false
  no_cell c (inl h) = absurd (h refl)
  no_cell c (inr h) = h

  -- The same behind any arguments.
  join_front :
      (defs : List Definition) (partial : Bool) (st : ParserState) (out : Output) (d : Definition)
      (v : Text) (front rest : List Text)
      → All (IsNoFlag n not_unknown) defs
      → Holds (IsNoFlag n not_unknown) st.def
      → (IsSound n not_unknown) out
      → IsName n
      → IsLine v
      → is_value v ≡ true
      → get defs (long_arg n) ≡ some d
      → IsAlike v
          (read_texts defs false partial st out (front ++ (equals_arg n v ∷ rest)))
          (read_texts defs false partial st out (front ++ (long_arg n ∷ v ∷ rest)))
  unfolding read_texts
  join_front defs partial st out d v [] rest flags held sound h k val g =
      let e = (get-name n not_unknown) defs d h g in
      let b : is_boolean d ≡ false =
        no_flag d e (rw g at (get-Holds (IsNoFlag n not_unknown) defs (long_arg n) flags)) in
      let about : IsAbout (IsNoFlag n not_unknown) ((sets n not_unknown) (long_arg n) d empty) =
        known _ d refl (sym e) (inr b) in
      let c = no_cell (cell_of (lookup n out) (create d)) (
        target_holds (IsNoFlag n not_unknown) (IsCell n not_unknown) (λ d h. h) (kept n not_unknown)
          (λ c. inl not_unknown) out ((sets n not_unknown) (long_arg n) d empty) sound about) in
      (join n not_unknown) defs partial st out d v rest e b c h k val g
  join_front defs partial st out d v (t ∷ front) rest flags held sound h k val g =
      let (about, held') = step-Holds (IsNoFlag n not_unknown) defs false st t flags held in
      elim (Result-cases (record_events partial out (step defs false st t).0)) [
        | inl (o, s) ↦ rw s (
            join_front defs partial (step defs false st t).1 o d v front rest flags held'
              (record_events_holds (IsNoFlag n not_unknown) (IsCell n not_unknown) (λ d h. h)
                (kept n not_unknown) (λ c. inl not_unknown) partial out o (step defs false st t).0
                sound about s)
              h k val g)
        | inr (x, s) ↦ rw s (inl refl)
      ]

  texts_equals :
      (v : Text) (rest : List Text) → texts (equals_arg n v ∷ rest) ≡ equals_arg n v ∷ texts rest
  texts_equals v rest = texts_plain (equals_arg n v) rest (combined_short-dashes (n ++ (b'=' ∷ v)))

  texts_long :
      (v : Text) (rest : List Text)
      → is_value v ≡ true
      → texts (long_arg n ∷ v ∷ rest) ≡ long_arg n ∷ v ∷ texts rest
  texts_long v rest h =
      texts_plain (long_arg n) (v ∷ rest) (combined_short-dashes n)
      ∙ ap (λ r. long_arg n ∷ r) (texts_plain v rest (is_value_parts v h).1)

  of_texts_equal :
      (defs : List Definition) (partial : Bool) (d : Definition) (v : Text) (front rest : List Text)
      → All (IsNoFlag n not_unknown) defs
      → IsName n
      → IsLine v
      → is_value v ≡ true
      → get defs (long_arg n) ≡ some d
      → IsAlike v
          (of_texts false partial (texts (front ++ (equals_arg n v ∷ rest))) defs)
          (of_texts false partial (texts (front ++ (long_arg n ∷ v ∷ rest))) defs)
  unfolding of_texts
  of_texts_equal defs partial d v front rest flags h k val g =
      let sound =
        initial_output_holds (IsNoFlag n not_unknown) (IsCell n not_unknown) (λ d h. h)
          (kept n not_unknown) (λ c. inl not_unknown) defs flags in
      rw
        (
          texts-append front (equals_arg n v ∷ rest),
          texts-append front (long_arg n ∷ v ∷ rest),
          texts_equals v rest,
          texts_long v rest val,
        )
        (alike_bind v _ _ (λ o. ok (to_object partial o))
          (join_front defs partial start (initial_output defs) d v (texts front) (texts rest) flags
            tt sound h k val g))

  -- For an option that is no flag, `--name=value` anywhere among the arguments gives the same
  -- values or the same error as `--name` followed by the value, but for the value that the error
  -- of an option that is set already keeps, which is the text in the one and null in the other.
  -- The name is not `_unknown` and is not empty and has no white space and no equals sign, the
  -- value is not itself an option and has no line end, and parsing does not stop at the first
  -- unknown argument.
  pub command_line_args-equals :
      (defs : List Definition) (partial : Bool) (d : Definition) (v : Text) (front rest : List Text)
      → All (IsNoFlag n not_unknown) defs
      → IsName n
      → IsLine v
      → is_value v ≡ true
      → get defs (long_arg n) ≡ some d
      → IsAlike v
          (command_line_args defs false partial (front ++ (equals_arg n v ∷ rest)))
          (command_line_args defs false partial (front ++ (long_arg n ∷ v ∷ rest)))
  command_line_args-equals defs partial d v front rest flags h k val g =
      elim (validate-cases defs) [
        | inl e ↦
            rw
              (
                command_line_args-of_texts defs false partial (front ++ (equals_arg n v ∷ rest)),
                command_line_args-of_texts defs false partial (front ++ (long_arg n ∷ v ∷ rest)),
                e,
              )
              (of_texts_equal defs partial d v front rest flags h k val g)
        | inr (x, e) ↦
            rw
              (
                command_line_args-of_texts defs false partial (front ++ (equals_arg n v ∷ rest)),
                command_line_args-of_texts defs false partial (front ++ (long_arg n ∷ v ∷ rest)),
                e,
              )
              (inl refl)
      ]
