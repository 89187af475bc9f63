-- ===== src/CommandLine/Output/Laws.antt =====
-- The result of `commandLineArgs` (examples/add-runner.js, module 8098) depends on the texts of the
-- arguments alone, and combined short options are the same as separate ones.
use github_runner_autoscaler.Common.{
  ◌≡◌, ◌⊎◌, refl, Text, Bool, true, ◌||◌, List, [], ◌∷◌, ◌++◌, map, Bool-cases, inl, inr, Result,
  ok, err, Result-cases, ◌>>=◌,
}
use github_runner_autoscaler.CommandLine.Syntax.{combined_short}
use github_runner_autoscaler.CommandLine.Definitions.{
  Definition, ParseError, invalid_definitions, validate, is_valid,
}
use github_runner_autoscaler.CommandLine.Parser.{
  Item, ParserState, start, text_of, step, expand_combined,
}
use github_runner_autoscaler.CommandLine.Parser.Laws.{texts, separate, texts-separate}
use github_runner_autoscaler.CommandLine.Output.{
  Output, record_events, read_items, Object, initial_output, to_object, command_line_args,
}

-- The loop over the texts.
unfoldable pub read_texts :
    List Definition → Bool → Bool → ParserState → Output → List Text → Result ParseError Output
read_texts defs stop partial st out [] = ok out
read_texts defs stop partial st out (t ∷ ts) = do
  out' ← record_events partial out (step defs stop st t).0
  read_texts defs stop partial (step defs stop st t).1 out' ts

read_items-texts :
    (defs : List Definition) (stop partial : Bool) (st : ParserState) (out : Output)
    (items : List Item)
    → read_items defs stop partial st out items
      ≡ read_texts defs stop partial st out (map text_of items)
unfolding read_items read_texts
read_items-texts defs stop partial st out [] = refl
read_items-texts defs stop partial st out (i ∷ items) =
    elim (Result-cases (record_events partial out (step defs stop st (text_of i)).0)) [
      | inl (out', e) ↦
          rw e (read_items-texts defs stop partial (step defs stop st (text_of i)).1 out' items)
      | inr (x, e) ↦ rw e
    ]

-- The result, from the texts of the arguments.
unfoldable pub of_texts : Bool → Bool → List Text → List Definition → Result ParseError Object
of_texts stop partial ts defs = do
  out ← read_texts defs stop (stop || partial) start (initial_output defs) ts
  ok (to_object (stop || partial) out)

pub command_line_args-of_texts :
    (defs : List Definition) (stop partial : Bool) (argv : List Text)
    → command_line_args defs stop partial argv
      ≡ (validate defs >>= of_texts stop partial (texts argv))
unfolding command_line_args texts of_texts
command_line_args-of_texts defs stop partial argv = elim (Result-cases (validate defs)) [
  | inl (valid, e) ↦ rw (
    e,
    read_items-texts valid stop (stop || partial) start (initial_output valid)
        (expand_combined argv),
  )
  | inr (x, e) ↦ rw e
]

-- Combined short options are read as the same options given one by one, whatever stands before and
-- behind them.
pub command_line_args-separate :
    (defs : List Definition) (stop partial : Bool) (front back : List Text) (arg : Text)
    → combined_short arg ≡ true
    → command_line_args defs stop partial (front ++ (arg ∷ back))
      ≡ command_line_args defs stop partial (front ++ (separate arg ++ back))
command_line_args-separate defs stop partial front back arg h = rw (
  command_line_args-of_texts defs stop partial (front ++ (arg ∷ back)),
  command_line_args-of_texts defs stop partial (front ++ (separate arg ++ back)),
  texts-separate arg front back h,
)

-- Definitions are taken as they are, or refused.
pub validate-cases :
    (defs : List Definition)
    → (validate defs ≡ ok defs) ⊎ ((x : ParseError) × (validate defs ≡ err x))
validate-cases defs = elim (Bool-cases (is_valid defs)) [
  | inl e ↦ inl (unfold validate in rw e)
  | inr e ↦ inr (invalid_definitions, unfold validate in rw e)
]
