-- ===== src/CommandLine/Output/Equals/Steps.antt =====
-- The rounds of the parser on `--name=value`, and on `--name` and the value (examples/add-runner.js,
-- module 8098).
use github_runner_autoscaler.Common.Dict.{insert, lookup}
use github_runner_autoscaler.Common.{
  ◌≡◌, ◌≢◌, ◌⊎◌, refl, ap, ◌∙◌, sym, arith, Text, text_eq, text_eq_refl, text_eq_iff, text_eq→eq,
  Bool, true, false, List, [], ◌∷◌, Bool-cases, inl, inr, some, Result, ok, err, Result-cases,
  ◌>>=◌,
}
use mathlib.Core.Path.{subst}
use github_runner_autoscaler.CommandLine.Syntax.{get_option_name, is_value}
use github_runner_autoscaler.CommandLine.Syntax.Forms.{
  IsName, IsLine, long_arg, equals_arg, opt_equals-some, is_option-long_arg, is_option-equals_arg,
  is_value_parts, get_option_name-long_arg, short-long_arg,
}
use github_runner_autoscaler.CommandLine.Definitions.{
  Definition, Value, is_boolean, is_multiple, ParseError, already_set, get, find, same,
}
use github_runner_autoscaler.CommandLine.Parser.{
  Given, empty, given, ParserState, ArgInfo, step, unknown_name, set, Reading, info, next_state,
}
use github_runner_autoscaler.CommandLine.Output.{
  Output, Cell, cell_of, create, set_cell, record_event, record_events,
}
use github_runner_autoscaler.CommandLine.Output.Laws.{read_texts}
use github_runner_autoscaler.CommandLine.Output.Cells.{Inv}

lookup-insert_self : (k : Text) (c : Cell) (m : Output) → lookup k (insert k c m) ≡ some c
unfolding lookup insert
lookup-insert_self k c [] = rw (text_eq_refl k)
lookup-insert_self k c ((j, d) ∷ m) = ground (arith, lookup-insert_self k c m, text_eq_refl k)

insert-insert_self : (k : Text) (c d : Cell) (m : Output) → insert k d (insert k c m) ≡ insert k d m
unfolding insert
insert-insert_self k c d [] = rw (text_eq_refl k)
insert-insert_self k c d ((j, e) ∷ m) = ground (arith, insert-insert_self k c d m, text_eq_refl k)

-- The same value or the same error, or the errors of an option that is set already, which differ in
-- the value that was refused: the text in the one, and null in the other.
abbrev pub IsAlike : {A : Type 0} → Text → Result ParseError A → Result ParseError A → Type 0
IsAlike v r r' =
    (r ≡ r')
    ⊎ ((name : Text) × (present : Value) × (r ≡ err (already_set name present (given v)))
        × (r' ≡ err (already_set name present empty)))

module _ {A B : Type 0} (v : Text) where
  pub alike_bind :
      (r r' : Result ParseError A) (f : A → Result ParseError B)
      → IsAlike v r r'
      → IsAlike v (r >>= f) (r' >>= f)
  alike_bind r r' f (inl e) = inl (ap (λ x. x >>= f) e)
  alike_bind r r' f (inr (k, p, e, e')) = inr (k, p, ap (λ x. x >>= f) e, ap (λ x. x >>= f) e')

pub alike_of :
    {A : Type 0} (v : Text) (r s r' s' : Result ParseError A)
    → r ≡ s
    → r' ≡ s'
    → IsAlike v s s'
    → IsAlike v r r'
alike_of v r s r' s' e e' (inl h) = inl (e ∙ h ∙ sym e')
alike_of v r s r' s' e e' (inr (k, p, h, h')) = inr (k, p, e ∙ h, e' ∙ h')

-- Setting a text, or null and then the text.
set_cell_twice :
    (c : Cell) (v : Text)
    → is_boolean c.def ≡ false
    → IsAlike v (set_cell c (given v)) (set_cell c empty >>= λ c'. set_cell c' (given v))
unfolding set_cell
set_cell_twice c v h = elim (Bool-cases (is_multiple c.def)) [
  | inl m ↦ inl (ground arith)
  | inr m ↦ elim (Bool-cases c.is_changed) [
    | inl s ↦ inr (c.def.name, c.value, rw (h, m, s) refl, rw (h, m, s) refl)
    | inr s ↦ inl (ground arith)
  ]
]

set_cell-def : (c c' : Cell) (v : Given) → set_cell c v ≡ ok c' → c'.def ≡ c.def
unfolding set_cell
set_cell-def c c' v h = ground arith

-- The name `n` of an option that is not the reserved one.
module _ (n : Text) (not_unknown : unknown_name ≢ n) where
  -- No boolean option is called `n`.
  abbrev pub IsNoFlag : Definition → Type 0
  IsNoFlag d = (d.name ≢ n) ⊎ (is_boolean d ≡ false)

  abbrev pub IsCell : Text → Cell → Type 0
  IsCell k c = (k ≢ n) ⊎ (is_boolean c.def ≡ false)

  pub kept : (k : Text) (c c' : Cell) (v : Given) → IsCell k c → set_cell c v ≡ ok c' → IsCell k c'
  kept k c c' v (inl h) e = inl h
  kept k c c' v (inr h) e = inr (rw (set_cell-def c c' v e) h)

  abbrev pub IsSound : Output → Type 0
  IsSound = Inv IsNoFlag IsCell (λ d h. h) kept (λ c. inl not_unknown)

  -- The event that sets the option to a value.
  abbrev pub sets : Text → Definition → Given → ArgInfo
  sets arg d v = record { event = set; arg = arg; name = n; value = v; def = some d }

  is_other : text_eq n unknown_name ≡ false
  is_other = elim (Bool-cases (text_eq n unknown_name)) [
    | inl e ↦ absurd (not_unknown (sym ((text_eq_iff n unknown_name).0 e)))
    | inr e ↦ e
  ]

  record_event-sets :
      (partial : Bool) (out : Output) (d : Definition) (arg : Text) (v : Given)
      → record_event partial out (sets arg d v)
        ≡ (set_cell (cell_of (lookup n out) (create d)) v >>= λ c. ok (insert n c out))
  unfolding record_event
  record_event-sets true out d arg v = rw is_other
  record_event-sets false out d arg v = rw is_other

  stored :
      (c : Cell) (out : Output) (r : Result ParseError Cell)
      → (r >>= λ c'. ok (insert n c' (insert n c out))) ≡ (r >>= λ c'. ok (insert n c' out))
  stored c out (ok c') = ap ok (insert-insert_self n c c' out)
  stored c out (err x) = refl

  -- The two events in a row set the cell twice.
  record_both :
      (partial : Bool) (out : Output) (d : Definition) (arg arg' v : Text)
      → (record_event partial out (sets arg d empty) >>= λ o.
          record_event partial o (sets arg' d (given v)))
        ≡ ((set_cell (cell_of (lookup n out) (create d)) empty >>= λ c. set_cell c (given v))
            >>= λ c. ok (insert n c out))
  record_both partial out d arg arg' v =
      elim (Result-cases (set_cell (cell_of (lookup n out) (create d)) empty)) [
        | inl (c, s) ↦
            let first : record_event partial out (sets arg d empty) ≡ ok (insert n c out) =
              record_event-sets partial out d arg empty ∙ rw s in
            rw
              (
                first,
                record_event-sets partial (insert n c out) d arg' (given v),
                lookup-insert_self n c out,
                s,
              )
              (stored c out (set_cell c (given v)))
        | inr (x, s) ↦
            let first : record_event partial out (sets arg d empty) ≡ err x =
              record_event-sets partial out d arg empty ∙ rw s in
            rw (first, s)
      ]

  record_twice :
      (partial : Bool) (out : Output) (d : Definition) (arg arg' arg'' v : Text)
      → is_boolean (cell_of (lookup n out) (create d)).def ≡ false
      → IsAlike v (record_event partial out (sets arg'' d (given v))) (
          record_event partial out (sets arg d empty) >>= λ o.
          record_event partial o (sets arg' d (given v)))
  record_twice partial out d arg arg' arg'' v h =
      alike_of v _ _ _ _ (record_event-sets partial out d arg'' (given v))
        (record_both partial out d arg arg' v)
        (alike_bind v _ _ (λ c. ok (insert n c out))
          (set_cell_twice (cell_of (lookup n out) (create d)) v h))

  find_sound :
      (p : Definition → Bool) (defs : List Definition) (d : Definition)
      → find p defs ≡ some d
      → p d ≡ true
  unfolding find
  find_sound p [] d e = absurd (ground arith)
  find_sound p (c ∷ defs) d e = elim (Bool-cases (p c)) [
    | inl h ↦ let s : c ≡ d = ground (arith, h) in subst (λ x. p x ≡ true) s h
    | inr h ↦ find_sound p defs d (rw h at e)
  ]

  pub get-name :
      (defs : List Definition) (d : Definition)
      → IsName n
      → get defs (long_arg n) ≡ some d
      → d.name ≡ n
  get-name defs d h e =
      let o = is_option-long_arg n h in
      let g = get_option_name-long_arg n h in
      let f : find (λ c. same (some c.name) (get_option_name (long_arg n))) defs ≡ some d =
        unfold get in rw (o, short-long_arg n h) at e in
      let m = find_sound (λ c. same (some c.name) (get_option_name (long_arg n))) defs d f in
      text_eq→eq d.name n (rw g at m)

  abbrev reading : Definition → Given → Reading
  reading d v = record { def = some d; value = v; event = set }

  step_long :
      (defs : List Definition) (st : ParserState) (d : Definition)
      → IsName n
      → get defs (long_arg n) ≡ some d
      → is_boolean d ≡ false
      → step defs false st (long_arg n)
        ≡ (info (long_arg n) (reading d empty) ∷ [], next_state st (reading d empty))
  unfolding step
  step_long defs st d h g b = elim (Bool-cases st.unknown_found) [
    | inl u ↦ rw (u, is_option-long_arg n h, g, b)
    | inr u ↦ rw (u, is_option-long_arg n h, g, b)
  ]

  step_equals :
      (defs : List Definition) (st : ParserState) (d : Definition) (v : Text)
      → IsName n
      → IsLine v
      → get defs (long_arg n) ≡ some d
      → is_boolean d ≡ false
      → step defs false st (equals_arg n v)
        ≡ (info (equals_arg n v) (reading d (given v)) ∷ [], next_state st (reading d (given v)))
  unfolding step
  step_equals defs st d v h k g b = elim (Bool-cases st.unknown_found) [
    | inl u ↦ rw (u, is_option-equals_arg n v h k, opt_equals-some n v h k, g, b)
    | inr u ↦ rw (u, is_option-equals_arg n v h k, opt_equals-some n v h k, g, b)
  ]

  step_value :
      (defs : List Definition) (st : ParserState) (d : Definition) (v : Text)
      → st.def ≡ some d
      → is_value v ≡ true
      → step defs false st v
        ≡ (info v (reading d (given v)) ∷ [], next_state st (reading d (given v)))
  unfolding step
  step_value defs st d v e h =
      let (o, _, q) = is_value_parts v h in
      elim (Bool-cases st.unknown_found) [ inl u ↦ rw (u, o, q, e) | inr u ↦ rw (u, o, q, e) ]

  next_twice :
      (st : ParserState) (d : Definition) (v : Text)
      → d.name ≡ n
      → is_boolean d ≡ false
      → next_state (next_state st (reading d empty)) (reading d (given v))
        ≡ next_state st (reading d (given v))
  next_twice st d v e b = ground (arith, is_other)

  single :
      (partial : Bool) (out : Output) (a : ArgInfo) (k : Output → Result ParseError Output)
      → (record_events partial out (a ∷ []) >>= k) ≡ (record_event partial out a >>= k)
  unfolding record_events
  single partial out a k = elim (Result-cases (record_event partial out a)) [
    | inl (o, e) ↦ rw e
    | inr (x, e) ↦ rw e
  ]

  bind_assoc :
      (m : Result ParseError Output) (f k : Output → Result ParseError Output)
      → (m >>= λ o. (f o >>= k)) ≡ ((m >>= f) >>= k)
  bind_assoc (ok o) f k = refl
  bind_assoc (err x) f k = refl

  info-sets :
      (arg : Text) (d : Definition) (v : Given) → d.name ≡ n → info arg (reading d v) ≡ sets arg d v
  info-sets arg d v e = rw e

  bind_ext :
      (m : Result ParseError Output) (f g : Output → Result ParseError Output)
      → ((o : Output) → f o ≡ g o)
      → (m >>= f) ≡ (m >>= g)
  bind_ext (ok o) f g h = h o
  bind_ext (err x) f g h = refl

  read_one :
      (defs : List Definition) (partial : Bool) (st st' : ParserState) (out : Output) (t : Text)
      (ts : List Text) (a : ArgInfo)
      → step defs false st t ≡ (a ∷ [], st')
      → read_texts defs false partial st out (t ∷ ts)
        ≡ (record_event partial out a >>= λ o. read_texts defs false partial st' o ts)
  read_one defs partial st st' out t ts a s =
      unfold read_texts in rw s (single partial out a (λ o. read_texts defs false partial st' o ts))

  -- One argument `--n=v`, or the two arguments `--n` and `v`, from any state and output.
  pub join :
      (defs : List Definition) (partial : Bool) (st : ParserState) (out : Output) (d : Definition)
      (v : Text) (rest : List Text)
      → d.name ≡ n
      → is_boolean d ≡ false
      → is_boolean (cell_of (lookup n out) (create d)).def ≡ false
      → IsName n
      → IsLine v
      → is_value v ≡ true
      → get defs (long_arg n) ≡ some d
      → IsAlike v
          (read_texts defs false partial st out (equals_arg n v ∷ rest))
          (read_texts defs false partial st out (long_arg n ∷ v ∷ rest))
  join defs partial st out d v rest e b c h k val g =
      let st₁ = next_state st (reading d empty) in
      let st₂ = next_state st (reading d (given v)) in
      let more : Output → Result ParseError Output =
        λ o. read_texts defs false partial st₂ o rest in
      let setting : Output → Result ParseError Output =
        λ o. record_event partial o (sets v d (given v)) in
      let s₁ = step_long defs st d h g b in
      let s₂ = step_value defs st₁ d v (ground (arith, b)) val in
      let s₃ = step_equals defs st d v h k g b in
      let one : read_texts defs false partial st out (equals_arg n v ∷ rest)
          ≡ (record_event partial out (sets (equals_arg n v) d (given v)) >>= more) =
        read_one defs partial st st₂ out (equals_arg n v) rest (sets (equals_arg n v) d (given v))
          (rw (info-sets (equals_arg n v) d (given v) e) at s₃) in
      let two : read_texts defs false partial st out (long_arg n ∷ v ∷ rest) ≡ (
          record_event partial out (sets (long_arg n) d empty) >>= λ o.
          read_texts defs false partial st₁ o (v ∷ rest)) =
        read_one defs partial st st₁ out (long_arg n) (v ∷ rest) (sets (long_arg n) d empty)
          (rw (info-sets (long_arg n) d empty e) at s₁) in
      let s₂' : step defs false st₁ v ≡ (sets v d (given v) ∷ [], st₂) =
        rw (info-sets v d (given v) e, next_twice st d v e b) at s₂ in
      let next : (o : Output)
          → read_texts defs false partial st₁ o (v ∷ rest) ≡ (setting o >>= more) =
        λ o. read_one defs partial st₁ st₂ o v rest (sets v d (given v)) s₂' in
      alike_of v _ _ _ _ one (two ∙ bind_ext _ _ _ next ∙ bind_assoc _ setting more)
        (alike_bind v _ _ more (record_twice partial out d (long_arg n) v (equals_arg n v) v c))
