-- ===== src/CommandLine/Output/Typed.antt =====
-- The values that `commandLineArgs` returns are those of defined options, of the options' types
-- (examples/add-runner.js, module 8098).
use github_runner_autoscaler.Common.{
  ◌≡◌, ◌⊎◌, refl, sym, ◌∙◌, arith, Text, text_eq, text_eq_refl, Bool, true, false, List, [], ◌∷◌,
  ◌++◌, All, All-append, if◌then◌else◌, Bool-cases, inl, inr, Option, some, none, ok, Result-cases,
}
use mathlib.Core.Path.{subst}
use github_runner_autoscaler.CommandLine.Definitions.{
  Definition, Kind, string_kind, number_kind, boolean_kind, Scalar, undefined, null, text, number,
  boolean, Value, one, many, is_boolean, is_multiple,
}
use github_runner_autoscaler.CommandLine.Parser.{
  ParserState, Given, absent, empty, flag, given, start, step, unknown_name,
}
use github_runner_autoscaler.CommandLine.Parser.Laws.{texts}
use github_runner_autoscaler.CommandLine.Parser.Events.{Holds, step-Holds}
use github_runner_autoscaler.CommandLine.Output.{
  Output, Cell, Object, convert, array_of, reset_value, create, push, replace, set_value, set_cell,
  record_events, initial_output, to_object, is_filled, command_line_args,
}
use github_runner_autoscaler.CommandLine.Output.Laws.{
  read_texts, of_texts, command_line_args-of_texts, validate-cases,
}
use github_runner_autoscaler.CommandLine.Output.Cells.{
  Inv, record_events_holds, initial_output_holds,
}

-- A text for `String`, a number for `Number`, a Boolean for `Boolean`.
abbrev pub FitsKind : Kind → Scalar → Type 0
FitsKind string_kind (text t) = Unit
FitsKind number_kind (number n) = Unit
FitsKind boolean_kind (boolean b) = Unit
FitsKind k s = ⊥

-- One such, or nothing.
abbrev pub FitsValue : Kind → Value → Type 0
FitsValue k (many vs) = ⊥
FitsValue k (one null) = Unit
FitsValue k (one undefined) = Unit
FitsValue k (one (text t)) = FitsKind k (text t)
FitsValue k (one (number n)) = FitsKind k (number n)
FitsValue k (one (boolean b)) = FitsKind k (boolean b)

-- An option that takes several values has a list.
abbrev pub FitsOption : Bool → Kind → Value → Type 0
FitsOption true k (many vs) = All (FitsKind k) vs
FitsOption true k (one s) = ⊥
FitsOption false k v = FitsValue k v

abbrev pub FitsDefault : Bool → Kind → Option Value → Type 0
FitsDefault several k none = Unit
FitsDefault true k (some v) = All (FitsKind k) (array_of v)
FitsDefault false k (some v) = FitsValue k v

-- The default value is of the option's type.
abbrev pub HasFittingDefault : Definition → Type 0
HasFittingDefault d = FitsDefault (is_multiple d) d.kind d.default_value

abbrev pub Member : Definition → List Definition → Type 0
Member d [] = ⊥
Member d (e ∷ es) = (d ≡ e) ⊎ Member d es

convert-fits : (k : Kind) (v : Given) → FitsKind k (convert k v)
convert-fits string_kind (given t) = tt
convert-fits string_kind flag = tt
convert-fits string_kind empty = tt
convert-fits string_kind absent = tt
convert-fits number_kind (given t) = tt
convert-fits number_kind flag = tt
convert-fits number_kind empty = tt
convert-fits number_kind absent = tt
convert-fits boolean_kind (given t) = tt
convert-fits boolean_kind flag = tt
convert-fits boolean_kind empty = tt
convert-fits boolean_kind absent = tt

one-fits : (k : Kind) (s : Scalar) → FitsKind k s → FitsValue k (one s)
one-fits k undefined h = tt
one-fits k null h = tt
one-fits k (text t) h = h
one-fits k (number n) h = h
one-fits k (boolean b) h = h

reset-fits :
    (several : Bool) (k : Kind) (o : Option Value)
    → FitsDefault several k o
    → FitsOption several k (reset_value several o)
reset-fits true k none h = tt
reset-fits true k (some v) h = h
reset-fits false k none h = tt
reset-fits false k (some v) h = h

grown-fits :
    (k : Kind) (v : Value) (old : Bool) (s : Scalar)
    → FitsOption true k v
    → FitsKind k s
    → All (FitsKind k) ((if old then array_of v else []) ++ (s ∷ []))
grown-fits k (many vs) true s h x = All-append (FitsKind k) vs (s ∷ []) h (x, tt)
grown-fits k v false s h x = (x, tt)
grown-fits k (one t) true s h x = absurd h

push-fits :
    (c : Cell) (v : Given)
    → FitsOption true c.def.kind c.value
    → FitsOption true c.def.kind (push c v).value × ((push c v).def ≡ c.def)
push-fits c absent h = (h, refl)
push-fits c empty h = (h, refl)
push-fits c flag h = (
  grown-fits c.def.kind c.value c.is_changed (convert c.def.kind flag) h
      (convert-fits c.def.kind flag),
  refl,
)
push-fits c (given t) h = (
  grown-fits c.def.kind c.value c.is_changed (convert c.def.kind (given t)) h
      (convert-fits c.def.kind (given t)),
  refl,
)

replace-fits :
    (c : Cell) (v : Given)
    → FitsOption false c.def.kind (replace c v).value × ((replace c v).def ≡ c.def)
replace-fits c absent = (tt, refl)
replace-fits c empty = (tt, refl)
replace-fits c flag =
    (one-fits c.def.kind (convert c.def.kind flag) (convert-fits c.def.kind flag), refl)
replace-fits c (given t) =
    (one-fits c.def.kind (convert c.def.kind (given t)) (convert-fits c.def.kind (given t)), refl)

-- A cell whose value is of its option's type.
abbrev IsFit : Cell → Type 0
IsFit c = FitsOption (is_multiple c.def) c.def.kind c.value

set_value-fits :
    (c c' : Cell) (v : Given) → IsFit c → set_value c v ≡ ok c' → IsFit c' × (c'.def ≡ c.def)
set_value-fits c c' v h e = elim (Bool-cases (is_multiple c.def)) [
  | inl m ↦
      let same : push c v ≡ c' = ground (arith, m) in
      let (fits, def) = push-fits c v (rw m at h) in
      subst (λ x. IsFit x × (x.def ≡ c.def)) same (rw (def, m) fits, def)
  | inr m ↦
      let same : replace c v ≡ c' = ground (arith, m) in
      let (fits, def) = replace-fits c v in
      subst (λ x. IsFit x × (x.def ≡ c.def)) same (rw (def, m) fits, def)
]

set_cell-fits :
    (c c' : Cell) (v : Given) → IsFit c → set_cell c v ≡ ok c' → IsFit c' × (c'.def ≡ c.def)
unfolding set_cell
set_cell-fits c c' v h e = set_value-fits c c' (if is_boolean c.def then flag else v) h e

-- One of the definitions has the name, and the value is of its type.
abbrev pub IsOptionValue : List Definition → Text → Value → Type 0
IsOptionValue defs k v =
    (d : Definition) × Member d defs × (d.name ≡ k) × FitsOption (is_multiple d) d.kind v

module _ (defs : List Definition) where
  abbrev IsOurs : Definition → Type 0
  IsOurs d = Member d defs × HasFittingDefault d

  abbrev IsOurCell : Text → Cell → Type 0
  IsOurCell k c = (k ≡ unknown_name) ⊎ (Member c.def defs × (c.def.name ≡ k) × IsFit c)

  fresh : (d : Definition) → IsOurs d → IsOurCell d.name (create d)
  fresh d (m, f) = inr (m, refl, reset-fits (is_multiple d) d.kind d.default_value f)

  kept :
      (k : Text) (c c' : Cell) (v : Given) → IsOurCell k c → set_cell c v ≡ ok c' → IsOurCell k c'
  kept k c c' v (inl h) e = inl h
  kept k c c' v (inr (m, n, f)) e =
      let (f', same) = set_cell-fits c c' v f e in inr (rw same m, rw same n, f')

  abbrev IsOurOutput : Output → Type 0
  IsOurOutput = Inv IsOurs IsOurCell fresh kept (λ c. inl refl)

  read_texts-Holds :
      (partial : Bool) (st : ParserState) (out out' : Output) (ts : List Text)
      → All IsOurs defs
      → Holds IsOurs st.def
      → IsOurOutput out
      → read_texts defs false partial st out ts ≡ ok out'
      → IsOurOutput out'
  unfolding read_texts
  read_texts-Holds partial st out out' [] ours held h e =
      let same : out ≡ out' = ground arith in subst IsOurOutput same h
  read_texts-Holds partial st out out' (t ∷ ts) ours held h e =
      let (about, held') = step-Holds IsOurs defs false st t ours held in
      elim (Result-cases (record_events partial out (step defs false st t).0)) [
        | inl (o, s) ↦
            read_texts-Holds partial (step defs false st t).1 o out' ts ours held'
              (record_events_holds IsOurs IsOurCell fresh kept (λ c. inl refl) partial out o
                (step defs false st t).0 h about s)
              (rw s at e)
        | inr (x, s) ↦ absurd (ground (arith, s))
      ]

  entry :
      (k : Text) (c : Cell)
      → IsOurCell k c
      → text_eq k unknown_name ≡ false
      → IsOptionValue defs k c.value
  entry k c (inl e) h = absurd (ground (arith, text_eq_refl unknown_name, h, e))
  entry k c (inr (m, n, f)) h = (c.def, m, n, f)

  to_object_holds :
      (out : Output) → IsOurOutput out → All (λ e. IsOptionValue defs e.0 e.1) (to_object false out)
  unfolding to_object
  to_object_holds [] h = tt
  to_object_holds ((k, c) ∷ out) (hc, h) = elim (Bool-cases (text_eq k unknown_name)) [
    | inl e ↦ rw e (to_object_holds out h)
    | inr e ↦ elim (Bool-cases (is_filled c.value)) [
      | inl f ↦ rw (e, f) (entry k c hc e, to_object_holds out h)
      | inr f ↦ rw (e, f) (entry k c hc e, to_object_holds out h)
    ]
  ]

  All-IsOurs :
      (es : List Definition)
      → ((d : Definition) → Member d es → Member d defs)
      → All HasFittingDefault es
      → All IsOurs es
  All-IsOurs [] m h = tt
  All-IsOurs (e ∷ es) m (he, h) = ((m e (inl refl), he), All-IsOurs es (λ d k. m d (inr k)) h)

  of_texts_holds :
      (ts : List Text) (obj : Object)
      → All HasFittingDefault defs
      → of_texts false false ts defs ≡ ok obj
      → All (λ e. IsOptionValue defs e.0 e.1) obj
  unfolding of_texts
  of_texts_holds ts obj h e =
      let ours = All-IsOurs defs (λ d k. k) h in
      elim (Result-cases (read_texts defs false false start (initial_output defs) ts)) [
        | inl (out, s) ↦
            let final =
              read_texts-Holds false start (initial_output defs) out ts ours tt
                (initial_output_holds IsOurs IsOurCell fresh kept (λ c. inl refl) defs ours) s in
            let same : to_object false out ≡ obj = ground (arith, s) in
            subst (λ o. All (λ e. IsOptionValue defs e.0 e.1) o) same (to_object_holds out final)
        | inr (x, s) ↦ absurd (ground (arith, s))
      ]

-- If strict parsing returns an object and each default value is of its option's type, every entry
-- is the value of a defined option of that name: a text, a number or a Boolean by the option's
-- type, or nothing; and a list of such exactly where the option takes several.
pub command_line_args-typed :
    (defs : List Definition) (argv : List Text) (obj : Object)
    → All HasFittingDefault defs
    → command_line_args defs false false argv ≡ ok obj
    → All (λ e. IsOptionValue defs e.0 e.1) obj
command_line_args-typed defs argv obj h e = elim (validate-cases defs) [
  | inl v ↦
      of_texts_holds defs (texts argv) obj h
        (rw v at (sym (command_line_args-of_texts defs false false argv) ∙ e))
  | inr (x, v) ↦ absurd (ground (arith, v, command_line_args-of_texts defs false false argv))
]
